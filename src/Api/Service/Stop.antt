-- ===== src/Api/Service/Stop.antt =====
-- `Stop` of v2/pkg/spike/api-service-impl.go.
use spike_broker.Prelude.{true, Option, none, some, [], ◌∷◌, Text, codes}
use spike_broker.Broker.Message.{GoError}
use spike_broker.Go.{Go, ◌>>◌, pure, raise, of_value, act}
use spike_broker.Api.Service.{Service, Subs, ServiceImpl, Options, fails}

module _ {W : Type 0} where
  -- A line of the log; a logger that is nil panics.
  unfoldable pub log_line : Option (Text → W → W) → Text → Go W (Unit {0})
  log_line none line = raise (of_value (codes "nil pointer dereference"))
  log_line (some log) line = act (log line)

  unfoldable pub unsubscribe_all : Subs W → Go W (Unit {0})
  unsubscribe_all [] = pure tt
  unsubscribe_all (unsubscribe ∷ rest) = unsubscribe >> unsubscribe_all rest

  unfoldable pub stop_monitors : Option (Text → W → W) → Subs W → Go W (Unit {0})
  stop_monitors log [] = log_line log (codes "stopping: no monitor to unsubscribe")
  stop_monitors log (unsubscribe ∷ rest) =
      unsubscribe_all (unsubscribe ∷ rest)
      >> log_line log (codes "stopping: unsubscribed from all monitors")

  -- `<-s.opts.Service.Stop()`; a service that is nil panics.
  unfoldable pub stop_of : Option (Service W) → Go W (Unit {0})
  stop_of none = raise (of_value (codes "nil pointer dereference"))
  stop_of (some service) = service.stop

  unfoldable pub stop_opts :
      ServiceImpl W → Option (Options W) → Go W (ServiceImpl W × Option GoError)
  stop_opts s none = fails s (codes "API not initialized")
  stop_opts s (some o) =
      stop_monitors s.logger s.monitor_subs
      >> stop_of o.service
      >> log_line s.logger (codes "stopping: service stopped, cancelling context")
      >> pure (record s { cancelled = true }, none)

  -- `Stop`.
  unfoldable pub stop : ServiceImpl W → Go W (ServiceImpl W × Option GoError)
  stop s = stop_opts s s.opts
