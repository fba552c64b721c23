-- ===== src/Scripts/Acls/Verify.antt =====
-- scripts/create_acls.py: what an exit code of 0 says of the cluster.
use realtime_finance_bot.Base.{
  ℕ, zero, suc, Bool, true, false, List, [], ◌∷◌, Str, Result, ok, raise, ◌≡◌, refl, sym, ap, ◌∙◌,
  inl, inr, Bool-cases, arith,
}
use realtime_finance_bot.Python.Values.{Error}
use realtime_finance_bot.Scripts.Acls.{
  AclBinding, wanted_bindings, missing_grants, exit_of, failed_grants, after_describe,
  after_futures, after_grants, grant,
}

-- The exit code of a run, 1 where it raises.
unfoldable code : Result Error ℕ → ℕ
code (ok n) = n
code (raise e) = 1

one≢zero : ◌≡◌ {A = ℕ} 1 0 → ⊥
one≢zero e = ground arith

module _ {E : Type 0} (listed : AclBinding → E → Bool) where
  missing_grants_listed :
      (existing : E) (b : AclBinding) (bindings : List AclBinding)
      → listed b existing ≡ true
      → missing_grants listed existing (b ∷ bindings) ≡ missing_grants listed existing bindings
  unfolding missing_grants
  missing_grants_listed existing b bindings h = rw h refl

  exit_of-missing_grants :
      (existing : E) (b : AclBinding) (bindings : List AclBinding)
      → listed b existing ≡ false
      → exit_of (missing_grants listed existing (b ∷ bindings)) ≡ 1
  unfolding missing_grants exit_of
  exit_of-missing_grants existing b bindings h = rw h refl

  -- Each of the grants is among those that the cluster lists.
  unfoldable pub AllListed : E → List AclBinding → Type 0
  AllListed existing [] = Unit {0}
  AllListed existing (b ∷ bindings) = (listed b existing ≡ true) × AllListed existing bindings

  -- Grants of which none is missing are all listed.
  missing_grants-AllListed :
      (existing : E) (bindings : List AclBinding)
      → exit_of (missing_grants listed existing bindings) ≡ 0
      → AllListed existing bindings
  unfolding AllListed
  missing_grants-AllListed existing [] h = tt
  missing_grants-AllListed existing (b ∷ bindings) h = elim (Bool-cases (listed b existing)) [
    | inl l ↦ (
      l,
      missing_grants-AllListed existing bindings
          (sym (ap exit_of (missing_grants_listed existing b bindings l)) ∙ h),
    )
    | inr l ↦ elim (one≢zero (sym (exit_of-missing_grants existing b bindings l) ∙ h)) [ ]
  ]

  module _ {W : Type 0}
      (create_acls : List AclBinding → W → Result Error (List (AclBinding × Bool)) × W)
      (describe_acls : W → Result Error E × W) where
    -- The answer of the cluster, got at the end of the run, lists all the grants.
    pub IsReadBack : List AclBinding → Result Error E × W → W → Type 0
    IsReadBack bindings answer after =
        (existing : E) × ((answer ≡ (ok existing, after)) × AllListed existing bindings)

    after_describe-IsReadBack :
        (bindings : List AclBinding) (answer : Result Error E × W) (after : W)
        → after_describe listed create_acls describe_acls bindings answer ≡ (ok 0, after)
        → IsReadBack bindings answer after
    unfolding IsReadBack after_describe exit_of code
    after_describe-IsReadBack bindings (ok existing, w) after h = (
      existing,
      (
        ap (λ p. (ok existing, p.1)) h,
        missing_grants-AllListed existing bindings (ap (λ p. code p.0) h),
      ),
    )
    after_describe-IsReadBack bindings (raise e, w) after h =
        elim (one≢zero (ap (λ p. code p.0) h)) [ ]

    after_futures-IsReadBack :
        (bindings : List AclBinding) (failed : ℕ) (w after : W)
        → after_futures listed create_acls describe_acls bindings failed w ≡ (ok 0, after)
        → IsReadBack bindings (describe_acls w) after
    unfolding after_futures code
    after_futures-IsReadBack bindings zero w after h =
        after_describe-IsReadBack bindings (describe_acls w) after h
    after_futures-IsReadBack bindings (suc failed) w after h =
        elim (one≢zero (ap (λ p. code p.0) h)) [ ]

    -- A run of the steps after the grants that ends with 0 has read every grant back.
    after_grants-IsReadBack :
        (bindings : List AclBinding) (granted : Result Error (List (AclBinding × Bool)) × W)
        (after : W)
        → after_grants listed create_acls describe_acls bindings granted ≡ (ok 0, after)
        → IsReadBack bindings (describe_acls granted.1) after
    unfolding after_grants code
    after_grants-IsReadBack bindings (ok futures, w) after h =
        after_futures-IsReadBack bindings (failed_grants futures) w after h
    after_grants-IsReadBack bindings (raise e, w) after h =
        elim (one≢zero (ap (λ p. code p.0) h)) [ ]

    -- A run of the script that ends with an exit code of 0 has asked the cluster for its grants after it made its
    -- own, has got an answer, and each of the four grants that it wants is in that answer.
    pub grant-IsReadBack :
        (principal : Str) (w after : W)
        → grant listed create_acls describe_acls principal w ≡ (ok 0, after)
        → IsReadBack
            (wanted_bindings principal)
            (describe_acls (create_acls (wanted_bindings principal) w).1)
            after
    unfolding grant
    grant-IsReadBack principal w after h =
        after_grants-IsReadBack (wanted_bindings principal)
          (create_acls (wanted_bindings principal) w) after h
