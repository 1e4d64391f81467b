-- ===== src/Scheduler/Threaded.antt =====
-- Several sequences threaded through one store of links: adding to one of them and taking out of it.
use urbi_embedded.Shared.{
  ℕ, ◌≡◌, ◌≢◌, refl, sym, ap, ◌∙◌, subst, arith, true, false, List, [], ◌∷◌, ◌==◌, if◌then◌else◌,
  Bool-cases, ◌⊎◌, inl, inr,
}
use urbi_embedded.Scheduler.Threads.{
  clash, upd, has, Distinct, erase, before, Linked, Linked-frame, Linked-remove,
}
use urbi_embedded.Scheduler.Erase.{has-erase, erased, Distinct-erase, Linked-nonzero, has-before}

-- The sequence `lists a` is linked from `heads a` on, no strand is in two of them or twice in one, and
-- the link of any other is NULL.
pub record IsThreaded (f heads : ℕ → ℕ) (lists : ℕ → List ℕ) : Type 0 where
  pub chain : (a : ℕ) → Linked f (heads a) (lists a)
  pub distinct : (a : ℕ) → Distinct (lists a)
  pub apart : (a b k : ℕ) → has k (lists a) ≡ true → has k (lists b) ≡ true → a ≡ b
  pub loose : (k : ℕ) → k ≢ 0 → ((a : ℕ) → has k (lists a) ≡ false) → f k ≡ 0

pub Linked-cong :
    (f g : ℕ → ℕ) (h : ℕ) (xs : List ℕ)
    → ((k : ℕ) → k ≢ 0 → f k ≡ g k)
    → Linked f h xs
    → Linked g h xs
Linked-cong f g h [] same l = l
Linked-cong f g h (x ∷ xs) same (e, nz, l) =
    (e, nz, subst (λ m. Linked g m xs) (same x nz) (Linked-cong f g (f x) xs same l))

-- A sequence that neither `s` nor `q` is in stays linked when their links are overwritten.
pub Linked-frame_two :
    (f : ℕ → ℕ) (s v q w h : ℕ) (xs : List ℕ)
    → has s xs ≡ false
    → (q ≢ 0 → has q xs ≡ false)
    → Linked f h xs
    → Linked (upd s v (upd q w f)) h xs
Linked-frame_two f s v q w h xs out_s out_q l =
    Linked-frame (upd q w f) s v h xs out_s (go (Bool-cases (q == 0)))
  where
    go : ((q == 0) ≡ true) ⊎ ((q == 0) ≡ false) → Linked (upd q w f) h xs
    go (inl null) = Linked-cong f (upd q w f) h xs (λ k nz. ground (arith, null, nz)) l
    go (inr some_q) = Linked-frame f q w h xs (out_q (ground (arith, some_q))) l

pub unlinked :
    (f : ℕ → ℕ) (s h : ℕ) (xs : List ℕ)
    → Linked f h xs
    → Distinct xs
    → has s xs ≡ true
    → Linked
        (upd s 0 (upd (before s 0 xs) (f s) f))
        (if before s 0 xs == 0 then f s else h)
        (erase s xs)
unlinked f s h [] l d inside = absurd (ground (arith, inside))
unlinked f s h (x ∷ xs) (e, nz, l) (out, d) inside = elim (Bool-cases (s == x)) [
  | inl same ↦
      let is_x : x ≡ s = ground (arith, same) in
      let is_q : before s 0 (x ∷ xs) ≡ 0 = ground (arith, same) in
      let r : erase s (x ∷ xs) ≡ xs = ground (arith, same) in
      let gone : has s xs ≡ false = subst (λ k. has k xs ≡ false) is_x out in
      let rest =
        Linked-frame_two f s 0 0 (f s) (f s) xs gone (λ n. absurd (n refl))
          (subst (λ k. Linked f (f k) xs) is_x l) in
      subst (λ k. Linked (upd s 0 (upd k (f s) f)) (if k == 0 then f s else h) (erase s (x ∷ xs)))
        (sym is_q) (subst (λ zs. Linked (upd s 0 (upd 0 (f s) f)) (f s) zs) (sym r) rest)
  | inr apart ↦
      let q = before s x xs in
      let (there, rest) =
        Linked-remove f s x xs (refl, nz, l) (out, d) (ground (arith, apart, inside)) in
      let some_q : q ≢ 0 = Linked-nonzero f q x (x ∷ xs) (refl, nz, l) there in
      let is_q : before s 0 (x ∷ xs) ≡ q = ground (arith, apart) in
      let r : erase s (x ∷ xs) ≡ x ∷ erase s xs = ground (arith, apart) in
      let gone : has s (x ∷ erase s xs) ≡ false = ground (arith, apart, erased s xs d) in
      let head : (if q == 0 then f s else h) ≡ x = ground (arith, some_q, e) in
      subst (λ k. Linked (upd s 0 (upd k (f s) f)) (if k == 0 then f s else h) (erase s (x ∷ xs)))
        (sym is_q)
        (subst (λ m. Linked (upd s 0 (upd q (f s) f)) m (erase s (x ∷ xs))) (sym head)
          (subst (λ zs. Linked (upd s 0 (upd q (f s) f)) x zs) (sym r)
            (Linked-frame (upd q (f s) f) s 0 x (x ∷ erase s xs) gone rest)))
]

-- `s` is taken out of the sequence `b`: the link before it, or the head, takes its link, and its own is cleared.
module _ {f heads : ℕ → ℕ} {lists : ℕ → List ℕ} (t : IsThreaded f heads lists) (s b : ℕ)
    (inside : has s (lists b) ≡ true) where
  abbrev prev : ℕ
  prev = before s 0 (lists b)

  abbrev links_without : ℕ → ℕ
  links_without = upd s 0 (upd prev (f s) f)

  others :
      (a : ℕ)
      → (a == b) ≡ false
      → (has s (lists a) ≡ false) × (prev ≢ 0 → has prev (lists a) ≡ false)
  others a far = (
    elim (Bool-cases (has s (lists a))) [
      | inl h ↦ let e = t.apart a b s h inside in absurd (ground (arith, e, far))
      | inr h ↦ h
    ],
    λ n.
        let there =
          has-before f s (heads b) (lists b) (t.chain b) (t.distinct b) inside
            (ground (arith, n)) in
        elim (Bool-cases (has prev (lists a))) [
          | inl h ↦ let e = t.apart a b prev h there in absurd (ground (arith, e, far))
          | inr h ↦ h
        ],
  )

  has_without :
      (a k : ℕ) → (k == s) ≡ false → has k (upd b (erase s (lists b)) lists a) ≡ has k (lists a)
  has_without a k far = elim (Bool-cases (a == b)) [
    | inl same ↦
        let e : b ≡ a = ground (arith, same) in
        rw same (has-erase k s (lists b) far ∙ ap (λ m. has k (lists m)) e)
    | inr apart ↦ rw apart refl
  ]

  gone_everywhere : (a : ℕ) → has s (upd b (erase s (lists b)) lists a) ≡ false
  gone_everywhere a = elim (Bool-cases (a == b)) [
    | inl same ↦ rw same (erased s (lists b) (t.distinct b))
    | inr apart ↦ rw apart ((others a apart).0)
  ]

  back : (a k : ℕ) → has k (upd b (erase s (lists b)) lists a) ≡ true → has k (lists a) ≡ true
  back a k h = elim (Bool-cases (k == s)) [
    | inl same ↦
        let e : s ≡ k = ground (arith, same) in
        let no =
          subst (λ m. has m (upd b (erase s (lists b)) lists a) ≡ false) e (gone_everywhere a) in
        absurd (clash (sym no ∙ h))
    | inr apart ↦ sym (has_without a k apart) ∙ h
  ]

  pub IsThreaded-remove :
      IsThreaded links_without
        (upd b (if prev == 0 then f s else heads b) heads)
        (upd b (erase s (lists b)) lists)
  IsThreaded-remove = record {
    chain = λ a. elim (Bool-cases (a == b)) [
      | inl same ↦ rw same (unlinked f s (heads b) (lists b) (t.chain b) (t.distinct b) inside)
      | inr apart ↦ rw apart (
          Linked-frame_two f s 0 prev (f s) (heads a) (lists a) ((others a apart).0)
            ((others a apart).1) (t.chain a))
    ];
    distinct = λ a. elim (Bool-cases (a == b)) [
      | inl same ↦ rw same (Distinct-erase s (lists b) (t.distinct b))
      | inr apart ↦ rw apart (t.distinct a)
    ];
    apart = λ a c k h h'. t.apart a c k (back a k h) (back c k h');
    loose = λ k nz out. elim (Bool-cases (k == s)) [
      | inl same ↦ rw same refl
      | inr far ↦
          let free : (a : ℕ) → has k (lists a) ≡ false = λ a. sym (has_without a k far) ∙ out a in
          let null = t.loose k nz free in
          elim (Bool-cases (k == prev)) [
            | inl same ↦
                let e : k ≡ prev = ground (arith, same) in
                let n : prev ≢ 0 = ground (arith, e, nz) in
                let there =
                  has-before f s (heads b) (lists b) (t.chain b) (t.distinct b) inside
                    (ground (arith, n)) in
                absurd (clash (sym (free b) ∙ subst (λ m. has m (lists b) ≡ true) (sym e) there))
            | inr apart ↦ ground (arith, far, apart, null)
          ]
    ];
  }
