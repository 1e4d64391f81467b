-- ===== src/Scheduler/Joined.antt =====
-- A strand that is in no sequence joins one, at its front or at its end.
use urbi_embedded.Shared.{
  ℕ, ◌≡◌, ◌≢◌, refl, sym, ap, ◌∙◌, subst, arith, true, false, ◌&&◌, ◌||◌, List, [], ◌∷◌, ◌++◌, ◌==◌,
  if◌then◌else◌, Bool-cases, ◌⊎◌, inl, inr,
}
use urbi_embedded.Scheduler.Threads.{
  clash, upd, has, Distinct, last, Linked, Linked-frame, has-apart,
}
use urbi_embedded.Scheduler.Erase.{Linked-nonzero, last-has}
use urbi_embedded.Scheduler.Threaded.{IsThreaded, Linked-frame_two}

pub has-append : (k s : ℕ) (xs : List ℕ) → has k (xs ++ s ∷ []) ≡ has k xs || k == s
has-append k s [] = ground arith
has-append k s (x ∷ xs) = ground (arith, has-append k s xs)

Distinct-append : (s : ℕ) (xs : List ℕ) → has s xs ≡ false → Distinct xs → Distinct (xs ++ s ∷ [])
Distinct-append s [] out d = (refl, tt)
Distinct-append s (x ∷ xs) out (out', d) =
    let far : (x == s) ≡ false = ground (arith, out) in
    let rest : has s xs ≡ false = ground (arith, out) in
    (ground (arith, has-append x s xs, out', far), Distinct-append s xs rest d)

pub last-cases :
    (f : ℕ → ℕ) (h : ℕ) (xs : List ℕ) → Linked f h xs → (last xs ≡ 0) ⊎ (has (last xs) xs ≡ true)
last-cases f h [] l = inl refl
last-cases f h (x ∷ xs) l = inr (last-has f h x xs l)

appended :
    (f : ℕ → ℕ) (s h : ℕ) (xs : List ℕ)
    → s ≢ 0
    → has s xs ≡ false
    → Linked f h xs
    → Distinct xs
    → Linked (upd (last xs) s (upd s 0 f)) (if last xs == 0 then s else h) (xs ++ s ∷ [])
appended f s h [] nz out l d = (refl, nz, ground (arith, nz))
appended f s h (x ∷ []) nz out (e, nz', l) d =
    let far : (s == x) ≡ false = ground (arith, out) in
    (ground (arith, nz', e), nz', (ground arith, nz, ground (arith, far)))
appended f s h (x ∷ (y ∷ ys)) nz out (e, nz', l) (out', d) =
    let t = last (y ∷ ys) in
    let inside = last-has f (f x) y ys l in
    let some_t : t ≢ 0 = Linked-nonzero f t (f x) (y ∷ ys) l inside in
    let is_t : last (x ∷ (y ∷ ys)) ≡ t = ground (arith, some_t) in
    let far : (x == t) ≡ false = has-apart x t (y ∷ ys) out' inside in
    let apart : (s == x) ≡ false = ground (arith, out) in
    let rest = appended f s (f x) (y ∷ ys) nz (ground (arith, out)) l d in
    let head : (if t == 0 then s else h) ≡ x = ground (arith, some_t, e) in
    let next : (if t == 0 then s else f x) ≡ upd t s (upd s 0 f) x =
      ground (arith, some_t, far, apart) in
    subst (λ k. Linked (upd k s (upd s 0 f)) (if k == 0 then s else h) (x ∷ ((y ∷ ys) ++ s ∷ [])))
      (sym is_t)
      (head, nz', subst (λ m. Linked (upd t s (upd s 0 f)) m ((y ∷ ys) ++ s ∷ [])) next rest)

module _ {f heads : ℕ → ℕ} {lists : ℕ → List ℕ} (t : IsThreaded f heads lists) (s : ℕ) (nz : s ≢ 0)
    (free : (a : ℕ) → has s (lists a) ≡ false) (b : ℕ) where
  -- What a sequence holds when `s` has joined the one of `b` as `joined`.
  holds :
      (joined : List ℕ)
      → ((k : ℕ) → has k joined ≡ has k (lists b) || k == s)
      → (a k : ℕ) → has k (upd b joined lists a) ≡ has k (lists a) || (a == b && k == s)
  holds joined same a k = elim (Bool-cases (a == b)) [
    | inl e ↦
        let is_b : b ≡ a = ground (arith, e) in
        rw e (same k ∙ ap (λ m. has k (lists m) || k == s) is_b)
    | inr e ↦ ground (arith, e)
  ]

  apart_still :
      (joined : List ℕ)
      → ((k : ℕ) → has k joined ≡ has k (lists b) || k == s)
      → (a c k : ℕ) → has k (upd b joined lists a) ≡ true
      → has k (upd b joined lists c) ≡ true
      → a ≡ c
  apart_still joined same a c k h h' = elim (Bool-cases (k == s)) [
    | inl e ↦
        let is_s : s ≡ k = ground (arith, e) in
        let out : (m : ℕ) → has k (lists m) ≡ false =
          subst (λ u. (m : ℕ) → has u (lists m) ≡ false) is_s free in
        ground (arith, holds joined same a k, holds joined same c k, out a, out c, h, h')
    | inr e ↦
        t.apart a c k (ground (arith, holds joined same a k, e, h))
          (ground (arith, holds joined same c k, e, h'))
  ]

  free_still :
      (joined : List ℕ)
      → ((k : ℕ) → has k joined ≡ has k (lists b) || k == s)
      → (k : ℕ) → ((a : ℕ) → has k (upd b joined lists a) ≡ false)
      → ((k == s) ≡ false) × ((a : ℕ) → has k (lists a) ≡ false)
  free_still joined same k out =
      let far : (k == s) ≡ false = ground (arith, holds joined same b k, out b) in
      (far, λ a. ground (arith, holds joined same a k, out a, far))

  last_elsewhere : (a : ℕ) → (a == b) ≡ false → has (last (lists b)) (lists a) ≡ false
  last_elsewhere a far = elim (Bool-cases (has (last (lists b)) (lists a))) [
    | inr out ↦ out
    | inl inside ↦ elim (last-cases f (heads b) (lists b) (t.chain b)) [
      | inl null ↦
          absurd (Linked-nonzero f (last (lists b)) (heads a) (lists a) (t.chain a) inside null)
      | inr there ↦
          let e = t.apart a b (last (lists b)) inside there in absurd (ground (arith, e, far))
    ]
  ]

  -- At the front: the link of `s` is the head, and the head is `s`.
  pub IsThreaded-push : IsThreaded (upd s (heads b) f) (upd b s heads) (upd b (s ∷ lists b) lists)
  IsThreaded-push =
      let same : (k : ℕ) → has k (s ∷ lists b) ≡ has k (lists b) || k == s = λ k. ground arith in
      record {
        chain = λ a. elim (Bool-cases (a == b)) [
          | inl e ↦ rw e (
            refl,
            nz,
            subst (λ m. Linked (upd s (heads b) f) m (lists b)) (ground arith)
                (Linked-frame f s (heads b) (heads b) (lists b) (free b) (t.chain b)),
          )
          | inr e ↦ rw e (Linked-frame f s (heads b) (heads a) (lists a) (free a) (t.chain a))
        ];
        distinct = λ a. elim (Bool-cases (a == b)) [
          | inl e ↦ rw e (free b, t.distinct b)
          | inr e ↦ rw e (t.distinct a)
        ];
        apart = apart_still (s ∷ lists b) same;
        loose = λ k some_k out.
            let (far, none_has) = free_still (s ∷ lists b) same k out in
            ground (arith, far, t.loose k some_k none_has);
      }

  -- At the end: the link of the last one, or the head, is `s`, and the link of `s` is NULL.
  pub IsThreaded-append :
      IsThreaded
        (upd (last (lists b)) s (upd s 0 f))
        (upd b (if last (lists b) == 0 then s else heads b) heads)
        (upd b (lists b ++ s ∷ []) lists)
  IsThreaded-append =
      let z = last (lists b) in
      let same : (k : ℕ) → has k (lists b ++ s ∷ []) ≡ has k (lists b) || k == s =
        λ k. has-append k s (lists b) in
      record {
        chain = λ a. elim (Bool-cases (a == b)) [
          | inl e ↦ rw e (appended f s (heads b) (lists b) nz (free b) (t.chain b) (t.distinct b))
          | inr e ↦ rw e (
              Linked-frame_two f z s s 0 (heads a) (lists a) (last_elsewhere a e) (λ n. free a)
                (t.chain a))
        ];
        distinct = λ a. elim (Bool-cases (a == b)) [
          | inl e ↦ rw e (Distinct-append s (lists b) (free b) (t.distinct b))
          | inr e ↦ rw e (t.distinct a)
        ];
        apart = apart_still (lists b ++ s ∷ []) same;
        loose = λ k some_k out.
            let (far, none_has) = free_still (lists b ++ s ∷ []) same k out in
            elim (Bool-cases (k == z)) [
              | inr other ↦ ground (arith, far, other, t.loose k some_k none_has)
              | inl e ↦
                  let is_z : z ≡ k = ground (arith, e) in
                  elim (last-cases f (heads b) (lists b) (t.chain b)) [
                    | inl null ↦ absurd (some_k (sym is_z ∙ null))
                    | inr there ↦
                        absurd (
                          clash (sym (none_has b) ∙ subst (λ m. has m (lists b) ≡ true) is_z there))
                  ]
            ];
      }
