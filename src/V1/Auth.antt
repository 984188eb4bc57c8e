-- ===== src/V1/Auth.antt =====
-- pkg/service/auth-service.go and pkg/models/profile.go: who decides on tokens and permissions.
use spike_broker.Prelude.{Bool, List, Text}
use spike_broker.Go.{Go}
use spike_broker.V1.Rids.{Pattern}
use spike_broker.V1.Request.{CallRequest}

-- `Auth`, which the application implements.
pub record Auth (W : Type 0) : Type 0 where
  pub validate_token : Text → Go W (Text × Bool)
  pub user_have_permission : CallRequest → Go W Bool

-- `AuthRid`: a service with its patterns.
pub record AuthRid (W : Type 0) : Type 0 where
  pub service : Text
  pub auth : Auth W
  pub patterns : List Pattern

-- `HavePermissionRequest`.
pub record HavePermissionRequest : Type 0 where
  pub service : Text
  pub endpoint : Text
  pub method : Text
