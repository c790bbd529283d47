-- ===== src/Node.antt =====
-- include/apr/node.hpp: the record of a node. A JSON value, of nlohmann/json, is of a type `V` that is
-- a parameter; times are in seconds since the epoch, which do not reach 2 ^ 63.
pub mod Json
pub mod RoundTrip
mod Tests
use lightapr.Prelude.{ℕ, ◌≡◌, refl, Option, List, if◌then◌else◌}
use lightapr.Prelude.Text.{Text, codes, text_eq}
use lightapr.Prelude.Dict.{Dict}

pub data NodeStatus : Type 0 where
  ok grace erased : NodeStatus

unfoldable pub to_string : NodeStatus → Text
to_string ok = codes "OK"
to_string grace = codes "GRACE"
to_string erased = codes "ERASED"

unfoldable pub node_status_from_string : Text → NodeStatus
node_status_from_string str =
    if text_eq str (codes "GRACE")
    then grace
    else if text_eq str (codes "ERASED")
    then erased
    else ok

-- A status is read back from the word that is sent for it.
pub from_string-to_string : (s : NodeStatus) → node_status_from_string (to_string s) ≡ s
unfolding node_status_from_string to_string text_eq
from_string-to_string ok = refl
from_string-to_string grace = refl
from_string-to_string erased = refl

pub record EndpointInfo : Type 0 where
  pub addr : Text
  pub port : ℕ
  pub scheme : Text

-- `extra` is the JSON object of the workers' announcements, its entries by key.
pub record NodeInfo (V : Type 0) : Type 0 where
  pub id : Text
  pub role : Text
  pub workers : List Text
  pub endpoint : Option EndpointInfo
  pub status : NodeStatus
  pub added_at : ℕ
  pub active_at : ℕ
  pub expires_in : Option ℕ
  pub extra : Dict V
