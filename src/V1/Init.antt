-- ===== src/V1/Init.antt =====
-- Init of pkg/service/base-service.go: a service of version 1 connects, subscribes and migrates.
use spike_broker.Prelude.{Bool, not, Option, none, some, ◌++◌, if◌then◌else◌, Text, codes, text_eq}
use spike_broker.Broker.Message.{plain}
use spike_broker.Go.{Go, pure, raise, of_value, of_error, ◌>>=◌, ◌>>◌}

abbrev pub nats_provider : Text
nats_provider = codes "nats"

-- What Init works with: whether a rid is registered, the variable PROVIDER, the connection to the
-- broker, the subscriptions of the service, its migration, which gives the text of an error, and the
-- lock `api-migration`.
pub record Setup (W : Type 0) : Type 0 where
  pub has_rid : Bool
  pub provider : Text
  pub connect : Go W (Unit {0})
  pub subscriber : Option (Go W (Unit {0}))
  pub migration : Option (Go W (Option Text))
  pub lock : Go W (Unit {0})
  pub unlock : Go W (Unit {0})

module _ {W : Type 0} where
  abbrev pub run_subscriber : Option (Go W (Unit {0})) → Go W (Unit {0})
  run_subscriber none = pure tt
  run_subscriber (some f) = f

  abbrev pub check_error : Option Text → Go W (Unit {0})
  check_error none = pure tt
  check_error (some text) = raise (of_error (plain text))

  -- The lock is given back before the error is looked at, but not where the migration panics.
  unfoldable pub migrate : Setup W → Option (Go W (Option Text)) → Go W (Unit {0})
  migrate s none = pure tt
  migrate s (some f) = s.lock >> (f >>= λ e. s.unlock >> check_error e)

  -- `Init`.
  unfoldable pub init : Setup W → Go W (Unit {0})
  init s =
      if not s.has_rid
      then raise (of_value (codes "rid not registered"))
      else if text_eq s.provider nats_provider
      then s.connect >> run_subscriber s.subscriber >> migrate s s.migration
      else raise (of_error (plain (codes "invalid provider: " ++ s.provider)))
