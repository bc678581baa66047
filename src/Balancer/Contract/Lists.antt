-- ===== src/Balancer/Contract/Lists.antt =====
-- pkg/balancer.go: the contract for a balancer that keeps its backends in one list.
use simple_go_server.Common.{
  ℕ, suc, String, ◌≡◌, refl, sym, ap, ◌∙◌, subst, ◌≢◌, ◌↔◌, ◌⊎◌, inl, inr, List, [], ◌∷◌, ◌++◌,
  if◌then◌else◌, nat_eq, string_eq, Bool-cases, length,
}
use simple_go_server.Balancer.{Backend, registered, remove, ids}
use simple_go_server.Balancer.Members.{
  HasId, Distinct, append-Distinct, drop_id-Distinct, HasId-drop_id_iff, HasId-add,
  registered-HasId, not_registered, ids-remove, ids-append,
}
use simple_go_server.Balancer.Contract.{Membership}

module _ {ℓ} {T : Type ℓ} ⦃b : Backend T⦄ where
  abbrev pub enroll : T → List T → List T
  enroll t xs = if registered t xs then xs else xs ++ (t ∷ [])

  pub enroll-Distinct : (t : T) (xs : List T) → Distinct (ids xs) → Distinct (ids (enroll t xs))
  enroll-Distinct t xs d = elim (Bool-cases (registered t xs)) [
    | inl old ↦ rw old d
    | inr new ↦
        rw (new, ids-append t xs) (append-Distinct (b.id t) (ids xs) (not_registered t xs new) d)
  ]

  pub HasId-enroll :
      (t : T) (j : String) (xs : List T)
      → HasId j (ids (enroll t xs)) ↔ ((b.id t ≡ j) ⊎ HasId j (ids xs))
  HasId-enroll t j xs = elim (Bool-cases (registered t xs)) [
    | inl old ↦ rw old (
      inr,
      elim [ inl e ↦ subst (λ i. HasId i (ids xs)) e (registered-HasId t xs old) | inr h ↦ h ],
    )
    | inr new ↦ rw (new, ids-append t xs) (HasId-add (b.id t) j (ids xs))
  ]

  pub HasId-remove :
      (t : T) (j : String) (xs : List T)
      → Distinct (ids xs)
      → HasId j (ids (remove t xs)) ↔ ((b.id t ≢ j) × HasId j (ids xs))
  HasId-remove t j xs d =
      let (out, keep) = HasId-drop_id_iff (b.id t) j (ids xs) d in
      rw ids-remove
        ((λ h. ((λ e. (out h).1 (sym e)), (out h).0)), λ (n, h). keep h (λ e. n (sym e)))

  pub length-ids : (xs : List T) → length xs ≡ length (ids xs)
  length-ids [] = refl
  length-ids (x ∷ xs) = ap suc (length-ids xs)

  module _ (S : Type ℓ) (new : S) (register unregister : S → T → S) (backends : S → List T)
      (size : S → ℕ) (size-backends : (s : S) → size s ≡ length (backends s))
      (backends-new : backends new ≡ [])
      (backends-register : (s : S) (t : T) → backends (register s t) ≡ enroll t (backends s))
      (backends-unregister : (s : S) (t : T)
        → backends (unregister s t) ≡ remove t (backends s)) where
    abbrev pub by_list : Membership T
    by_list = record {
      State = S;
      new = new;
      register = register;
      unregister = unregister;
      size = size;
      members = λ s. ids (backends s);
      members-new = rw backends-new refl;
      size-members = λ s. size-backends s ∙ length-ids (backends s);
      register-Distinct = λ s t d. rw backends-register (enroll-Distinct t (backends s) d);
      HasId-register = λ s t j. rw backends-register (HasId-enroll t j (backends s));
      unregister-Distinct = λ s t d.
          rw (backends-unregister, ids-remove) (drop_id-Distinct (b.id t) (ids (backends s)) d);
      HasId-unregister = λ s t j d. rw backends-unregister (HasId-remove t j (backends s) d);
    }
