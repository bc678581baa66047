-- ===== src/Executor/Resolving.antt =====
-- internal/executor: which futures are resolved.
use simple_go_server.Common.{
  ℕ, ◌≡◌, refl, subst, inl, inr, Bool, true, false, Option, none, some, if◌then◌else◌, ◌==◌, nat_eq,
  string_eq, Bool-cases, Option-cases,
}
use simple_go_server.Executor.{
  Outcome, cancelled, Future, Stage, unborn, offering, checking, returned, Work, nowhere, taken,
  executing, done, Executor, set, resolve, cancel_with_err, is_done, hand_over_step, recheck_step,
  reject_step, begin_step, finish_step, cancel_step, stopping,
}

module _ {A : Type 0} where
  abbrev pub IsResolved : Future A → Type 0
  IsResolved f = is_done f ≡ true

  -- What the places of a future say of it.
  abbrev pub IsFresh : Work → Future A → Type 0
  IsFresh nowhere f = f.running ≡ false
  IsFresh taken f = ⊥
  IsFresh executing f = ⊥
  IsFresh done f = ⊥

  abbrev pub IsPlaced : Work → Future A → Type 0
  IsPlaced nowhere f = IsResolved f
  IsPlaced taken f = f.running ≡ false
  IsPlaced executing f = Unit {0}
  IsPlaced done f = IsResolved f

  abbrev pub Fits : Stage → Work → Future A → Type 0
  Fits unborn work f = IsFresh work f
  Fits offering work f = IsFresh work f
  Fits checking work f = IsPlaced work f
  Fits returned work f = IsPlaced work f

  abbrev pub IsKept : Executor A → Type 0
  IsKept e = (k : ℕ) → Fits (e.stages k) (e.work k) (e.futures k)

  abbrev pub Kept : Option (Executor A) → Type 0
  Kept none = Unit {0}
  Kept (some e) = IsKept e

  resolve_lem : (r : Outcome A) (f : Future A) → IsResolved (resolve r f)
  resolve_lem r f = elim (Option-cases f.outcome) [
    | inl missing ↦ rw missing refl
    | inr (old, there) ↦ rw there refl
  ]

  cancel_lem : (r : Outcome A) (f : Future A) → IsResolved (cancel_with_err r f)
  unfolding cancel_with_err
  cancel_lem r f = resolve_lem r (record f { ctx_done = true })

  -- A future that is cancelled has a place.
  cancelled-IsPlaced :
      (work : Work) (r : Outcome A) (f : Future A)
      → IsPlaced work f
      → IsPlaced work (cancel_with_err r f)
  unfolding cancel_with_err
  cancelled-IsPlaced nowhere r f placed = cancel_lem r f
  cancelled-IsPlaced taken r f placed = placed
  cancelled-IsPlaced executing r f placed = tt
  cancelled-IsPlaced done r f placed = cancel_lem r f

  rejected-IsPlaced :
      (work : Work) (r : Outcome A) (f : Future A)
      → IsFresh work f
      → IsPlaced work (cancel_with_err r f)
  rejected-IsPlaced nowhere r f fresh = cancel_lem r f
  rejected-IsPlaced taken r f fresh = elim fresh [ ]
  rejected-IsPlaced executing r f fresh = elim fresh [ ]
  rejected-IsPlaced done r f fresh = elim fresh [ ]

  fresh_not_running : (work : Work) (f : Future A) → IsFresh work f → f.running ≡ false
  fresh_not_running nowhere f fresh = fresh
  fresh_not_running taken f fresh = elim fresh [ ]
  fresh_not_running executing f fresh = elim fresh [ ]
  fresh_not_running done f fresh = elim fresh [ ]

  taken_not_running : (stage : Stage) (f : Future A) → Fits stage taken f → f.running ≡ false
  taken_not_running unborn f fits = elim fits [ ]
  taken_not_running offering f fits = elim fits [ ]
  taken_not_running checking f fits = fits
  taken_not_running returned f fits = fits

  begun-Fits : (stage : Stage) (f next : Future A) → Fits stage taken f → Fits stage executing next
  begun-Fits unborn f next fits = elim fits [ ]
  begun-Fits offering f next fits = elim fits [ ]
  begun-Fits checking f next fits = tt
  begun-Fits returned f next fits = tt

  finished-Fits :
      (stage : Stage) (f next : Future A)
      → Fits stage executing f
      → IsResolved next
      → Fits stage done next
  finished-Fits unborn f next fits r = elim fits [ ]
  finished-Fits offering f next fits r = elim fits [ ]
  finished-Fits checking f next fits r = r
  finished-Fits returned f next fits r = r

  shut-IsFresh :
      (work : Work) (f : Future A) → IsFresh work f → IsFresh work (record f { ctx_done = true })
  shut-IsFresh nowhere f fresh = fresh
  shut-IsFresh taken f fresh = fresh
  shut-IsFresh executing f fresh = fresh
  shut-IsFresh done f fresh = fresh

  shut-IsPlaced :
      (work : Work) (f : Future A) → IsPlaced work f → IsPlaced work (record f { ctx_done = true })
  shut-IsPlaced nowhere f placed = placed
  shut-IsPlaced taken f placed = placed
  shut-IsPlaced executing f placed = placed
  shut-IsPlaced done f placed = placed

  -- A cancelled context moves no future.
  shut-Fits :
      (stage : Stage) (work : Work) (f : Future A)
      → Fits stage work f
      → Fits stage work (record f { ctx_done = true })
  shut-Fits unborn work f fits = shut-IsFresh work f fits
  shut-Fits offering work f fits = shut-IsFresh work f fits
  shut-Fits checking work f fits = shut-IsPlaced work f fits
  shut-Fits returned work f fits = shut-IsPlaced work f fits

  pub stop-IsKept : (e : Executor A) → IsKept e → IsKept (stopping e)
  stop-IsKept e kept j = shut-Fits (e.stages j) (e.work j) (e.futures j) (kept j)

  pub hand_over-Kept :
      (e : Executor A) (k : ℕ) (stage : Stage)
      → IsKept e
      → e.stages k ≡ stage
      → Kept (hand_over_step e k stage)
  unfolding hand_over_step
  hand_over-Kept e k offering kept s = elim (Bool-cases (e.free_workers == 0)) [
    | inl hit ↦ rw hit tt
    | inr miss ↦ rw miss (λ j. elim (Bool-cases (j == k)) [
      | inl same ↦
          rw (same, (nat_eq.beq_iff j k).0 same)
            (fresh_not_running (e.work k) (e.futures k)
              (subst (λ stage. Fits stage (e.work k) (e.futures k)) s (kept k)))
      | inr other ↦ rw other (kept j)
    ])
  ]
  hand_over-Kept e k unborn kept s = tt
  hand_over-Kept e k checking kept s = tt
  hand_over-Kept e k returned kept s = tt

  rechecked-IsKept :
      (e : Executor A) (k : ℕ) (stopped : Bool)
      → IsKept e
      → IsPlaced (e.work k) (e.futures k)
      → (j : ℕ)
      → Fits (set e.stages k returned j) (e.work j) (
          (if stopped then set e.futures k (cancel_with_err cancelled (e.futures k)) else e.futures)
            j)
  rechecked-IsKept e k true kept placed j = elim (Bool-cases (j == k)) [
    | inl same ↦
        rw (same, (nat_eq.beq_iff j k).0 same)
          (cancelled-IsPlaced (e.work k) cancelled (e.futures k) placed)
    | inr other ↦ rw other (kept j)
  ]
  rechecked-IsKept e k false kept placed j = elim (Bool-cases (j == k)) [
    | inl same ↦ rw (same, (nat_eq.beq_iff j k).0 same) placed
    | inr other ↦ rw other (kept j)
  ]

  pub recheck-Kept :
      (e : Executor A) (k : ℕ) (stage : Stage)
      → IsKept e
      → e.stages k ≡ stage
      → Kept (recheck_step e k stage)
  unfolding recheck_step
  recheck-Kept e k checking kept s =
      rechecked-IsKept e k e.stopped kept
        (subst (λ stage. Fits stage (e.work k) (e.futures k)) s (kept k))
  recheck-Kept e k unborn kept s = tt
  recheck-Kept e k offering kept s = tt
  recheck-Kept e k returned kept s = tt

  pub reject-Kept :
      (e : Executor A) (k : ℕ) (stage : Stage)
      → IsKept e
      → e.stages k ≡ stage
      → Kept (reject_step e k stage)
  unfolding reject_step
  reject-Kept e k offering kept s = elim (Bool-cases e.stopped) [
    | inl hit ↦ rw hit (λ j. elim (Bool-cases (j == k)) [
      | inl same ↦
          rw (same, (nat_eq.beq_iff j k).0 same)
            (rejected-IsPlaced (e.work k) cancelled (e.futures k)
              (subst (λ stage. Fits stage (e.work k) (e.futures k)) s (kept k)))
      | inr other ↦ rw other (kept j)
    ])
    | inr miss ↦ rw miss tt
  ]
  reject-Kept e k unborn kept s = tt
  reject-Kept e k checking kept s = tt
  reject-Kept e k returned kept s = tt

  pub begin-Kept :
      (e : Executor A) (k : ℕ) (work : Work)
      → IsKept e
      → e.work k ≡ work
      → Kept (begin_step e k work)
  unfolding begin_step
  begin-Kept e k taken kept w =
      let fits = subst (λ work. Fits (e.stages k) work (e.futures k)) w (kept k) in
      rw (taken_not_running (e.stages k) (e.futures k) fits) (λ j. elim (Bool-cases (j == k)) [
        | inl same ↦
            rw (same, (nat_eq.beq_iff j k).0 same) (begun-Fits (e.stages k) (e.futures k) _ fits)
        | inr other ↦ rw other (kept j)
      ])
  begin-Kept e k nowhere kept w = tt
  begin-Kept e k executing kept w = tt
  begin-Kept e k done kept w = tt

  pub finish-Kept :
      (e : Executor A) (k : ℕ) (r : Outcome A) (work : Work)
      → IsKept e
      → e.work k ≡ work
      → Kept (finish_step e k r work)
  unfolding finish_step
  finish-Kept e k r executing kept w = λ j. elim (Bool-cases (j == k)) [
    | inl same ↦
        rw (same, (nat_eq.beq_iff j k).0 same)
          (finished-Fits (e.stages k) (e.futures k) (resolve r (e.futures k))
            (subst (λ work. Fits (e.stages k) work (e.futures k)) w (kept k))
            (resolve_lem r (e.futures k)))
    | inr other ↦ rw other (kept j)
  ]
  finish-Kept e k r nowhere kept w = tt
  finish-Kept e k r taken kept w = tt
  finish-Kept e k r done kept w = tt

  pub cancel-Kept :
      (e : Executor A) (k : ℕ) (r : Outcome A) (stage : Stage)
      → IsKept e
      → e.stages k ≡ stage
      → Kept (cancel_step e k r stage)
  unfolding cancel_step
  cancel-Kept e k r returned kept s = λ j. elim (Bool-cases (j == k)) [
    | inl same ↦
        rw (same, (nat_eq.beq_iff j k).0 same, s)
          (cancelled-IsPlaced (e.work k) r (e.futures k)
            (subst (λ stage. Fits stage (e.work k) (e.futures k)) s (kept k)))
    | inr other ↦ rw other (kept j)
  ]
  cancel-Kept e k r unborn kept s = tt
  cancel-Kept e k r offering kept s = tt
  cancel-Kept e k r checking kept s = tt
