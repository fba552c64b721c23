-- ===== src/Scripts/Acls.antt =====
-- scripts/create_acls.py: the grants, and the exit code, which is 0 where they were read back. The
-- cluster, and the equality of a grant with one that it lists, are parameters.
pub mod Verify
use realtime_finance_bot.Base.{
  ℕ, zero, suc, Bool, true, false, Option, none, some, List, [], ◌∷◌, if◌then◌else◌, Str, str,
  Result, ok, raise,
}
use realtime_finance_bot.Python.Values.{Error}

pub data ResourceType : Type 0 where
  topic group broker transactional_id : ResourceType

pub data ResourcePatternType : Type 0 where
  literal any_pattern : ResourcePatternType

pub data AclOperation : Type 0 where
  all_operations any_operation : AclOperation

pub data AclPermissionType : Type 0 where
  allow any_permission : AclPermissionType

pub record AclBinding : Type 0 where
  pub restype : ResourceType
  pub name : Str
  pub pattern : ResourcePatternType
  pub principal : Str
  pub host : Str
  pub operation : AclOperation
  pub permission : AclPermissionType

abbrev pub cluster_resource_name : Str
cluster_resource_name = str "kafka-cluster"

abbrev pub binding : Str → ResourceType → Str → AclBinding
binding principal restype name = record {
  restype = restype;
  name = name;
  pattern = literal;
  principal = principal;
  host = str "*";
  operation = all_operations;
  permission = allow;
}

unfoldable pub wanted_bindings : Str → List AclBinding
wanted_bindings principal =
    binding principal topic (str "*")
    ∷ binding principal group (str "*")
    ∷ binding principal broker cluster_resource_name
    ∷ binding principal transactional_id (str "*")
    ∷ []

-- One future for each grant, with whether its result came; the failures are counted.
unfoldable pub failed_grants : List (AclBinding × Bool) → ℕ
failed_grants [] = 0
failed_grants ((b, true) ∷ futures) = failed_grants futures
failed_grants ((b, false) ∷ futures) = suc (failed_grants futures)

unfoldable pub exit_of : List AclBinding → ℕ
exit_of [] = 0
exit_of (b ∷ bindings) = 1

module _ {E : Type 0} (listed : AclBinding → E → Bool) where
  -- `b not in set(existing)`
  unfoldable pub missing_grants : E → List AclBinding → List AclBinding
  missing_grants existing [] = []
  missing_grants existing (b ∷ bindings) =
      let rest = missing_grants existing bindings in if listed b existing then rest else b ∷ rest

  module _ {W : Type 0}
      (create_acls : List AclBinding → W → Result Error (List (AclBinding × Bool)) × W)
      (describe_acls : W → Result Error E × W) where
    unfoldable pub after_describe : List AclBinding → Result Error E × W → Result Error ℕ × W
    after_describe bindings (ok existing, w) = (ok (exit_of (missing_grants existing bindings)), w)
    after_describe bindings (raise e, w) = (raise e, w)

    unfoldable pub after_futures : List AclBinding → ℕ → W → Result Error ℕ × W
    after_futures bindings zero w = after_describe bindings (describe_acls w)
    after_futures bindings (suc failed) w = (ok 1, w)

    unfoldable pub after_grants :
        List AclBinding → Result Error (List (AclBinding × Bool)) × W → Result Error ℕ × W
    after_grants bindings (ok futures, w) = after_futures bindings (failed_grants futures) w
    after_grants bindings (raise e, w) = (raise e, w)

    -- `main`, from the grants on.
    unfoldable pub grant : Str → W → Result Error ℕ × W
    grant principal w =
        after_grants (wanted_bindings principal) (create_acls (wanted_bindings principal) w)
