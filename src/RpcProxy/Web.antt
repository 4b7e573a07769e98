-- ===== src/RpcProxy/Web.antt =====
-- What rpc-proxy/src/main.rs uses of the crates serde_json, reqwest and http. A string is the list
-- of its bytes.
use solenoid.Base.{ℕ, Bool, Option, List}
use solenoid.Base.Int.{ℤ}

-- JSON values. `field` is `get` with a name, which gives nothing for what is not an object.
pub record Json : Type 1 where
  pub Value : Type 0
  pub null : Value
  pub text : List ℕ → Value
  pub number : ℤ → Value
  pub list : List Value → Value
  pub object : List (List ℕ × Value) → Value
  pub is_null : Value → Bool
  pub is_object : Value → Bool
  pub as_str : Value → Option (List ℕ)
  pub as_array : Value → Option (List Value)
  pub field : List ℕ → Value → Option Value
  pub to_string : Value → List ℕ
  pub from_str : List ℕ → Option Value

-- An error of a request, and the text of a status.
pub record HttpCrate : Type 1 where
  pub Failure : Type 0
  pub is_connect : Failure → Bool
  pub is_timeout : Failure → Bool
  pub is_request : Failure → Bool
  pub failure_text : Failure → List ℕ
  pub status_text : ℕ → List ℕ
