-- ===== src/Balancer/Contract.antt =====
-- The membership half of the `Balancer` interface of pkg/balancer.go, as operations with laws, and
-- what a client that only knows the laws can rely on.
pub mod Plain
pub mod Lists
use simple_go_server.Common.{
  ℕ, zero, suc, ◌+◌, ◌-◌, ◌*◌, ◌/◌, ◌%◌, ◌^◌, ◌≤◌, ◌<◌, min, String, ◌≡◌, refl, sym, ap, ◌∙◌, subst,
  ◌≢◌, ◌↔◌, ◌⊎◌, inl, inr, Bool, true, false, not, ◌&&◌, ◌||◌, Option, none, some, List, [], ◌∷◌,
  ◌++◌, map, append-nil, append_assoc, arith, ltb, leb, if◌then◌else◌, Eq, ◌==◌, nat_eq, string_eq,
  nat_beq_iff, beq_refl, Bool-cases, Option-cases, length, get_elem?, get_or, take, drop, All,
  length-append, length-take, length-drop, take-append-drop, take-length-append, drop-length-append,
  get_elem?-lt, lt_of_get_elem?, All-append, All-get,
}
use simple_go_server.Balancer.{Backend}
use simple_go_server.Balancer.Members.{HasId, Distinct}

pub record Membership {ℓ} (T : Type ℓ) ⦃b : Backend T⦄ : Type (ℓ + 1) where
  pub State : Type ℓ
  pub new : State
  pub register : State → T → State
  pub unregister : State → T → State
  pub size : State → ℕ
  pub members : State → List String
  pub members-new : members new ≡ []
  pub size-members : (s : State) → size s ≡ length (members s)
  pub register-Distinct :
      (s : State) (t : T) → Distinct (members s) → Distinct (members (register s t))
  pub HasId-register :
      (s : State) (t : T) (j : String)
      → HasId j (members (register s t)) ↔ ((b.id t ≡ j) ⊎ HasId j (members s))
  pub unregister-Distinct :
      (s : State) (t : T) → Distinct (members s) → Distinct (members (unregister s t))
  pub HasId-unregister :
      (s : State) (t : T) (j : String)
      → Distinct (members s)
      → HasId j (members (unregister s t)) ↔ ((b.id t ≢ j) × HasId j (members s))

pub data Op {ℓ} (T : Type ℓ) : Type ℓ where
  join leave : T → Op T

module _ {ℓ} {T : Type ℓ} ⦃b : Backend T⦄ where
  -- Whether an id is there after some calls, by the last call that names it.
  unfoldable pub present : Bool → String → List (Op T) → Bool
  present now j [] = now
  present now j (join t ∷ ops) = present (if b.id t == j then true else now) j ops
  present now j (leave t ∷ ops) = present (if b.id t == j then false else now) j ops

  module _ (m : Membership T) where
    unfoldable pub run : m.State → List (Op T) → m.State
    run s [] = s
    run s (join t ∷ ops) = run (m.register s t) ops
    run s (leave t ∷ ops) = run (m.unregister s t) ops

    run-present :
        (s : m.State) (now : Bool) (j : String) (ops : List (Op T))
        → Distinct (m.members s)
        → HasId j (m.members s) ↔ (now ≡ true)
        → Distinct (m.members (run s ops))
          × (HasId j (m.members (run s ops)) ↔ (present now j ops ≡ true))
    unfolding run present
    run-present s now j [] d h = (d, h)
    run-present s now j (join t ∷ ops) d h =
        run-present (m.register s t) (if b.id t == j then true else now) j ops
          (m.register-Distinct s t d)
          (ground (arith, string_eq.beq_iff (b.id t) j, m.HasId-register s t j))
    run-present s now j (leave t ∷ ops) d h =
        run-present (m.unregister s t) (if b.id t == j then false else now) j ops
          (m.unregister-Distinct s t d)
          (ground (arith, string_eq.beq_iff (b.id t) j, m.HasId-unregister s t j d))

    -- After calls on a new balancer: ids occur once, an id is there exactly if the last call that
    -- names it registered it, and the size is the number of ids.
    abbrev pub Keeps : List (Op T) → Type 0
    Keeps ops =
        Distinct (m.members (run m.new ops))
        × ((j : String) → HasId j (m.members (run m.new ops)) ↔ (present false j ops ≡ true))
        × (m.size (run m.new ops) ≡ length (m.members (run m.new ops)))

    pub run-Keeps : (ops : List (Op T)) → Keeps ops
    run-Keeps ops = ((start "").0, (λ j. (start j).1), m.size-members (run m.new ops))
      where
        start :
            (j : String)
            → Distinct (m.members (run m.new ops))
              × (HasId j (m.members (run m.new ops)) ↔ (present false j ops ≡ true))
        start j =
            run-present m.new false j ops (rw m.members-new tt)
              (rw m.members-new ((λ h. absurd h), λ h. ground arith))
