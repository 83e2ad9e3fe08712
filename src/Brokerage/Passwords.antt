-- ===== src/Brokerage/Passwords.antt =====
-- src/services/mqtt_brokerage/mosquitto_brokerage_service.rs: the password file, through the program
-- mosquitto_passwd. `exists` is the test for the file; the commands that are run come back with the
-- result.
use place_net_hamlet.Common.{
  List, [], ◌∷◌, ◌++◌, none, some, Bool, Result, ok, err, Text, utf8, if◌then◌else◌,
}
use place_net_hamlet.Capabilities.{Output, Host}
use place_net_hamlet.Supervisor.{Reply}
use place_net_hamlet.Brokerage.Service.{MosquittoBrokerageService}

pub record Invocation : Type 0 where
  pub program : Text
  pub args : List Text

-- How an outcome of mosquitto_passwd is read.
unfoldable pub outcome : Host → Result Text Output → Reply
outcome host (err e) = err (utf8 "Failed to run mosquitto_passwd: " ++ e)
outcome host (ok output) =
    if output.success
    then ok tt
    else err (utf8 "mosquitto_passwd failed: " ++ host.from_utf8_lossy output.stderr)

abbrev invoke : Host → Text → List Text → List Invocation × Reply
invoke host program args =
    (record { program = program; args = args } ∷ [], outcome host (host.run program args))

-- The switch `-c` makes the file anew.
unfoldable pub set_password_args : Bool → Text → Text → Text → List Text
set_password_args there file username password =
    if there
    then utf8 "-b" ∷ file ∷ username ∷ password ∷ []
    else utf8 "-c" ∷ utf8 "-b" ∷ file ∷ username ∷ password ∷ []

unfoldable pub set_password :
    Host → (Text → Bool) → Text → Text → MosquittoBrokerageService → List Invocation × Reply
unfolding outcome set_password_args
set_password host exists username password s = elim s.password_binary [
  | none ↦ ([], err (utf8 "mosquitto_passwd is not installed"))
  | some passwd_bin ↦
      let file = s.config.password_file in
      invoke host passwd_bin (set_password_args (exists file) file username password)
]

unfoldable pub delete_user :
    Host → (Text → Bool) → Text → MosquittoBrokerageService → List Invocation × Reply
unfolding outcome
delete_user host exists username s = elim s.password_binary [
  | none ↦ ([], err (utf8 "mosquitto_passwd is not installed"))
  | some passwd_bin ↦
      let file = s.config.password_file in
      if exists file
      then invoke host passwd_bin (utf8 "-D" ∷ file ∷ username ∷ [])
      else ([], err (utf8 "Password file does not exist"))
]
