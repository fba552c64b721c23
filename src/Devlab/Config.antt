-- ===== src/Devlab/Config.antt =====
-- devlab/config.py: the broker that a read goes to. The settings, the environment and the output of
-- the programs that are run are parameters.
use realtime_finance_bot.Base.{
  ℕ, Bool, false, ◌||◌, not, ◌==◌, Option, none, some, List, [], ◌∷◌, if◌then◌else◌, Str, str,
  str_eq, has_part, strip, lower, split_on, get_elem?, Dict, Result, ok, raise, ◌>>=◌,
}

-- TargetError, by what is wrong, and the ValueError of an offset that is not known.
pub data Fault : Type 0 where
  no_credentials no_program timed_out refused_credentials failed_output invalid_arn no_brokers
        unknown_target unknown_offset :
      Fault

pub record Target : Type 0 where
  pub name : Str
  pub bootstrap : Str
  pub sasl_username : Option Str
  pub sasl_password : Option Str

-- A value of a configuration: a text, or `False`.
pub data Value : Type 0 where
  text : Str → Value
  off : Value

-- The username and the password, where both are there and not empty.
unfoldable pub credentials : Option Str → Option Str → Option (Str × Str)
credentials (some (u ∷ user)) (some (p ∷ password)) = some (u ∷ user, p ∷ password)
credentials _ _ = none

-- `_auth`
unfoldable pub auth : Target → Dict Str Value
unfolding credentials
auth t = elim (credentials t.sasl_username t.sasl_password) [
  | none ↦ []
  | some (user, password) ↦
      (str "security.protocol", text (str "SASL_SSL"))
      ∷ (str "sasl.mechanisms", text (str "SCRAM-SHA-512"))
      ∷ (str "sasl.username", text user)
      ∷ (str "sasl.password", text password)
      ∷ []
]

unfoldable pub admin_config : Target → Dict Str Value
unfolding auth
admin_config t = (str "bootstrap.servers", text t.bootstrap) ∷ auth t

unfoldable pub consumer_config : Str → Str → Target → Result Fault (Dict Str Value)
unfolding auth
consumer_config group offset_reset t =
    if str_eq offset_reset (str "earliest") || str_eq offset_reset (str "latest")
    then ok (
        (str "bootstrap.servers", text t.bootstrap)
        ∷ (str "group.id", text group)
        ∷ (str "auto.offset.reset", text offset_reset)
        ∷ (str "enable.auto.commit", off)
        ∷ auth t)
    else raise unknown_offset

-- What a run of a program gives: no such program, no answer in time, or its exit code and its outputs.
pub data Run : Type 0 where
  not_found expired : Run
  completed : ℕ → Str → Str → Run

-- `_CREDENTIAL_ERROR_MARKERS`
abbrev pub credential_error_markers : List Str
credential_error_markers =
    str "InvalidClientTokenId"
    ∷ str "ExpiredToken"
    ∷ str "could not be validated"
    ∷ str "UnrecognizedClientException"
    ∷ str "is not authorized to perform"
    ∷ []

unfoldable pub any_in : List Str → Str → Bool
unfolding has_part
any_in [] s = false
any_in (marker ∷ markers) s = has_part s marker || any_in markers s

-- `_terraform_output`
unfoldable pub output_of : Run → Result Fault Str
unfolding strip any_in
output_of not_found = raise no_program
output_of expired = raise timed_out
output_of (completed code stdout stderr) =
    if code == 0
    then ok (strip stdout)
    else if any_in credential_error_markers (strip stderr)
    then raise refused_credentials
    else raise failed_output

-- `cluster_arn.split(":", maxsplit=4)[3]`: the fourth field does not depend on the later ones.
unfoldable pub region_of : Str → Result Fault Str
unfolding split_on
region_of cluster_arn = elim (get_elem? (split_on b':' cluster_arn) 3) [
  | none ↦ raise invalid_arn
  | some [] ↦ raise invalid_arn
  | some (c ∷ region) ↦ ok (c ∷ region)
]

unfoldable pub brokers_of : Run → Result Fault Str
unfolding strip
brokers_of not_found = raise no_program
brokers_of expired = raise timed_out
brokers_of (completed code stdout stderr) =
    let brokers = strip stdout in
    if not (code == 0) || str_eq brokers [] || str_eq brokers (str "None")
    then raise no_brokers
    else ok brokers

-- `Settings`, as far as it is read.
pub record Settings : Type 0 where
  pub bootstrap_servers : Str
  pub sasl_username : Option Str
  pub sasl_password : Option Str

unfoldable pub local : Target
local = record {
  name = str "local";
  bootstrap = str "127.0.0.1:9092";
  sasl_username = none;
  sasl_password = none;
}

unfoldable pub msk : Settings → Result Fault Target
unfolding credentials
msk settings = elim (credentials settings.sasl_username settings.sasl_password) [
  | none ↦ raise no_credentials
  | some (user, password) ↦ ok (record {
    name = str "msk";
    bootstrap = settings.bootstrap_servers;
    sasl_username = some user;
    sasl_password = some password;
  })
]

-- The runs of `terraform output` by the output's name, and of `aws` by the cluster and its region.
module _ (terraform : Str → Run) (aws : Str → Str → Run) where
  -- `_aws_public_brokers`
  unfoldable pub aws_public_brokers : Str → Result Fault Str
  unfolding region_of brokers_of
  aws_public_brokers cluster_arn =
      region_of cluster_arn >>= λ region. brokers_of (aws cluster_arn region)

  unfoldable pub live_brokers : Str → Result Fault Str
  unfolding output_of aws_public_brokers
  live_brokers [] = output_of (terraform (str "cluster_arn")) >>= aws_public_brokers
  live_brokers (c ∷ bootstrap) = ok (c ∷ bootstrap)

  unfoldable pub from_terraform : Result Fault Target
  unfolding output_of live_brokers
  from_terraform = do
    public ← output_of (terraform (str "bootstrap_brokers_public"))
    bootstrap ← live_brokers public
    user ← output_of (terraform (str "sasl_username"))
    password ← output_of (terraform (str "sasl_password"))
    ok (record {
      name = str "msk";
      bootstrap = bootstrap;
      sasl_username = some user;
      sasl_password = some password;
    })

  -- `name or os.environ.get("FDAI_TARGET") or DEFAULT_TARGET`
  unfoldable pub chosen_of : Option Str → Option Str → Str
  chosen_of (some (c ∷ name)) environment = c ∷ name
  chosen_of _ (some (c ∷ name)) = c ∷ name
  chosen_of _ _ = str "local"

  unfoldable pub resolve : Settings → Option Str → Option Str → Result Fault Target
  unfolding chosen_of local msk from_terraform strip lower
  resolve settings environment name =
      let chosen = lower (strip (chosen_of name environment)) in
      if str_eq chosen (str "local")
      then ok local
      else if str_eq chosen (str "msk")
      then msk settings
      else if str_eq chosen (str "terraform")
      then from_terraform
      else raise unknown_target
