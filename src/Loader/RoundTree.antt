-- ===== src/Loader/RoundTree.antt =====
-- src/chunk/uchunk_io.c on the written bytes of a proto with its nested protos.
use urbi_embedded.Shared.{
  ℕ, zero, suc, ◌+◌, ◌*◌, ◌≤◌, ◌≡◌, ◌≢◌, refl, sym, ap, subst, arith, Bool, true, false, List, [],
  ◌∷◌, ◌++◌, leb, ◌==◌, if◌then◌else◌, length, All, length-append, append_assoc, Bool-cases, inl,
  inr,
}
use urbi_embedded.Chunk.Proto.{corrupt}
use urbi_embedded.Loader.Image.{Body, Image, image, Images, none_left, hole, nested}
use urbi_embedded.Loader.Valid.{IsBody, nested_count, IsImage, AreImages}
use urbi_embedded.Loader.Input.{Reader, fail}
use urbi_embedded.Loader.Tree.{
  nested_room, nested_loop, decode_nested_protos_into, decode_fields, decode_proto,
}
use urbi_embedded.Loader.Reads.{
  Reads, Reads-ret, Reads-bind, Reads-then, Reads-last, Reads-refuse, Reads-room, Reads-byte,
  Reads-varint_u, Reads-request,
}
use urbi_embedded.Loader.Round.{
  IsTextConstant, IsTextName, Reads-constants, Reads-instructions, Reads-line_table,
  Reads-site_names,
}
use urbi_embedded.Writer.Format.{
  varint, constants_bytes, instructions_bytes, line_table_bytes, site_names_bytes, frame_bytes,
  body_bytes, proto_bytes, nested_bytes,
}

-- No string, site name or source name has a NUL inside.
unfoldable mutual
  pub HasTexts : Image → Type 0
  HasTexts (image b ps) =
      All IsTextConstant b.constants × All IsTextName b.site_names × HaveTexts ps

  pub HaveTexts : Images → Type 0
  HaveTexts none_left = Unit
  HaveTexts (hole ps) = HaveTexts ps
  HaveTexts (nested p ps) = HasTexts p × HaveTexts ps

Reads-at :
    {A : Type 0} {m : Reader A} {off : ℕ} (off' : ℕ) (bytes : ℕ → List ℕ) {a : A}
    → off ≡ off'
    → Reads m off (bytes off) a
    → Reads m off (bytes off') a
Reads-at {A} {m} {off} off' bytes {a} e h = subst (λ k. Reads m off (bytes k) a) e h

append_five : (C W T N R : List ℕ) → (C ++ (W ++ (T ++ N))) ++ R ≡ C ++ (W ++ (T ++ (N ++ R)))
append_five C W T N R = simp append_assoc

module _ (alloc : ℕ → Bool) (serves : (n : ℕ) → alloc n ≡ true) (proto_size : ℕ)
    (sized : proto_size ≢ 0) where
  Reads-nested_room :
      (off count room : ℕ) → (r : ℕ) × Reads (nested_room alloc proto_size count room) off [] r
  unfolding nested_room
  Reads-nested_room off count room = elim (Bool-cases (leb room count)) [
    | inl full ↦
        let new_cap = if room == 0 then 4 else room * 2 in
        (
          new_cap,
          rw full (
              Reads-then _ (Reads-request alloc serves off (new_cap * 8) (λ e. ground (arith, e)))
                (Reads-ret off new_cap)),
        )
    | inr free ↦ (room, rw free (Reads-ret off room))
  ]

  module _ (flag : ℕ) (deeper : Bool) (child : Reader Image) (b : Body) (ps : Images) where
    Reads-fields :
        (off : ℕ)
        → IsBody flag b
        → nested_count ps ≤ 1024
        → All IsTextConstant b.constants
        → All IsTextName b.site_names
        → ((at : ℕ)
            → Reads
                (nested_loop alloc proto_size deeper child (nested_count ps) 0 0)
                at
                (nested_bytes at ps)
                ps)
        → Reads
            (decode_fields alloc proto_size flag deeper child)
            off
            (proto_bytes off (image b ps))
            (image b ps)
    unfolding decode_fields decode_nested_protos_into proto_bytes body_bytes
    Reads-fields off valid few texts names below =
        let C = constants_bytes b.constants in
        let at_words = off + length (frame_bytes b) + length C in
        let W = instructions_bytes at_words b.instructions in
        let T = line_table_bytes b in
        let N = site_names_bytes b.site_names in
        let V = varint (nested_count ps) in
        let at_nested = off + length (body_bytes off b) + length V in
        let R = V ++ nested_bytes at_nested ps in
        let reading : Reads (decode_fields alloc proto_size flag deeper child) off
            (b.max_reg ∷ []
              ++ (b.nupvals ∷ [] ++ (b.nparams ∷ [] ++ (C ++ (W ++ (T ++ (N ++ R)))))))
            (image (record b { arity_prologue = flag }) ps) =
          Reads-room _ (omega arith) (
            Reads-bind _ (Reads-byte off b.max_reg) (
              Reads-bind _ (Reads-byte _ b.nupvals) (
                Reads-bind _ (Reads-byte _ b.nparams) (
                  Reads-then _ (Reads-refuse _ _ corrupt (ground (arith, valid.frame))) (
                    Reads-bind _
                      (Reads-constants alloc serves _ b.constants valid.const_count valid.constants
                        texts)
                      (Reads-bind _
                        (Reads-at at_words (λ k. instructions_bytes k b.instructions) (omega arith)
                          (Reads-instructions alloc serves _ b.instructions valid.instr_count
                            valid.words))
                        (Reads-bind _
                          (Reads-line_table alloc serves _ b valid.instr_count valid.deltas
                            valid.abs_count valid.lines)
                          (Reads-bind _
                            (Reads-site_names alloc serves _ b.site_names valid.site_count
                              valid.names names)
                            (Reads-last _ (
                              Reads-bind _ (Reads-varint_u _ (nested_count ps) (omega arith)) (
                                Reads-then _ (Reads-refuse _ _ corrupt (ground arith)) (
                                  Reads-at at_nested (λ k. nested_bytes k ps)
                                    (omega (
                                      arith,
                                      length-append C (W ++ (T ++ N)),
                                      length-append W (T ++ N),
                                      length-append T N,
                                    ))
                                    (below _))))))))))))) in
        subst
          (λ bytes.
            Reads (decode_fields alloc proto_size flag deeper child) off (frame_bytes b ++ bytes)
              (image b ps))
          (sym (append_five C W T N R))
          (subst (Reads (decode_fields alloc proto_size flag deeper child) off _)
            (ap (λ f. image (record b { arity_prologue = f }) ps) (sym valid.flag)) reading)

  -- Below the greatest depth there is nothing.
  Reads-leaf :
      (ps : Images) (flag : ℕ) (child : Reader Image) (off count room : ℕ)
      → AreImages flag 0 ps
      → Reads
          (nested_loop alloc proto_size false child (nested_count ps) count room)
          off
          (nested_bytes off ps)
          ps
  unfolding nested_loop nested_bytes AreImages
  Reads-leaf none_left flag child off count room h = Reads-ret off none_left
  Reads-leaf (hole ps) flag child off count room h = elim h [ ]
  Reads-leaf (nested p ps) flag child off count room h = elim h [ ]

  mutual
    unfolding IsImage AreImages HasTexts HaveTexts decode_proto nested_loop nested_bytes

    pub Reads-proto :
        (p : Image) (flag levels off : ℕ)
        → IsImage flag levels p
        → HasTexts p
        → Reads (decode_proto alloc proto_size flag levels) off (proto_bytes off p) p
    Reads-proto (image b ps) flag zero off (valid, few, below) (texts, names, more) =
        Reads-fields flag false (fail corrupt) b ps off valid few texts names
          (λ at. Reads-leaf ps flag (fail corrupt) at 0 0 below)
    Reads-proto (image b ps) flag (suc levels) off (valid, few, below) (texts, names, more) =
        Reads-fields flag true (decode_proto alloc proto_size flag levels) b ps off valid few texts
          names (λ at. Reads-nested ps flag levels at 0 0 below more)

    Reads-nested :
        (ps : Images) (flag levels off count room : ℕ)
        → AreImages flag (suc levels) ps
        → HaveTexts ps
        → Reads
            (nested_loop alloc proto_size true
              (decode_proto alloc proto_size flag levels)
              (nested_count ps)
              count
              room)
            off
            (nested_bytes off ps)
            ps
    Reads-nested none_left flag levels off count room h text = Reads-ret off none_left
    Reads-nested (hole ps) flag levels off count room h text = elim h [ ]
    Reads-nested (nested p ps) flag levels off count room (h, hs) (text, texts) =
        let (room', grown) = Reads-nested_room off count room in
        Reads-then _ (Reads-refuse off false corrupt refl) (
          Reads-then _ grown (
            Reads-then _ (Reads-request alloc serves off proto_size sized) (
              Reads-bind _ (Reads-proto p flag levels off h text)
                (Reads-last _ (Reads-nested ps flag levels _ (count + 1) room' hs texts)))))
