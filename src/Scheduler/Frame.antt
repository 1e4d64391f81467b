-- ===== src/Scheduler/Frame.antt =====
-- What an operation of src/rt/usched.c leaves as it was.
use urbi_embedded.Shared.{
  ℕ, ◌≡◌, refl, ap, ◌∙◌, arith, Bool, true, false, ◌==◌, if◌then◌else◌, Bool-cases, inl, inr,
}
use urbi_embedded.Scheduler.{Strand, Vm, set_link, set_strand}

-- Every strand but `s` keeps all but its link, and the timers, the dispatching strand, the flags of the
-- tags and the realms stay.
pub record Stays (s : ℕ) (vm vm' : Vm) : Type 0 where
  pub others :
      (k : ℕ)
      → (k == s) ≡ false
      → vm'.strands k ≡ record (vm.strands k) { link = (vm'.strands k).link }
  pub timers : vm'.timers ≡ vm.timers
  pub current : vm'.current ≡ vm.current
  pub flags : vm'.flags ≡ vm.flags
  pub realms : vm'.realms ≡ vm.realms

pub Stays-refl : (s : ℕ) (vm : Vm) → Stays s vm vm
Stays-refl s vm = record {
  others = λ k far. refl;
  timers = refl;
  current = refl;
  flags = refl;
  realms = refl;
}

pub Stays-trans : {s : ℕ} {u v w : Vm} → Stays s u v → Stays s v w → Stays s u w
Stays-trans {s} {u} {v} {w} a b = record {
  others = λ k far.
      b.others k far ∙ ap (λ (x : Strand). record x { link = (w.strands k).link }) (a.others k far);
  timers = b.timers ∙ a.timers;
  current = b.current ∙ a.current;
  flags = b.flags ∙ a.flags;
  realms = b.realms ∙ a.realms;
}

pub Stays-link : (s j to : ℕ) (vm : Vm) → Stays s vm (set_link j to vm)
Stays-link s j to vm = record {
  others = λ k far. elim (Bool-cases (k == j)) [
    | inl same ↦
        let e : j ≡ k = ground (arith, same) in
        rw same (ap (λ m. record (vm.strands m) { link = to }) e)
    | inr apart ↦ rw apart refl
  ];
  timers = refl;
  current = refl;
  flags = refl;
  realms = refl;
}

pub Stays-strand : (s : ℕ) (y : Strand) (vm : Vm) → Stays s vm (set_strand s y vm)
Stays-strand s y vm = record {
  others = λ k far. rw far refl;
  timers = refl;
  current = refl;
  flags = refl;
  realms = refl;
}

pub Stays-head : (s to : ℕ) (vm : Vm) → Stays s vm (record vm { run_head = to })
Stays-head s to vm = record {
  others = λ k far. refl;
  timers = refl;
  current = refl;
  flags = refl;
  realms = refl;
}

pub Stays-tail : (s to : ℕ) (vm : Vm) → Stays s vm (record vm { run_tail = to })
Stays-tail s to vm = record {
  others = λ k far. refl;
  timers = refl;
  current = refl;
  flags = refl;
  realms = refl;
}

pub Stays-waiters : (s : ℕ) (to : ℕ → ℕ) (vm : Vm) → Stays s vm (record vm { waiters = to })
Stays-waiters s to vm = record {
  others = λ k far. refl;
  timers = refl;
  current = refl;
  flags = refl;
  realms = refl;
}

pub Stays-if :
    {s : ℕ} {u v w : Vm} (b : Bool) → Stays s u v → Stays s u w → Stays s u (if b then v else w)
Stays-if true a c = a
Stays-if false a c = c
