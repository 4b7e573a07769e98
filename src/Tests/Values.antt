-- ===== src/Tests/Values.antt =====
-- JSON values for the tests of the proxy: a value is its text. The first number tells what it is,
-- and the parts of a list or of an object follow, each behind its length.
use solenoid.Base.{
  ℕ, zero, suc, Bool, true, false, Option, none, some, List, [], ◌∷◌, ◌++◌, length, take, drop,
  ◌==◌, if◌then◌else◌,
}
use solenoid.Base.Int.{ℤ, pos, negsuc}
use solenoid.RpcProxy.Web.{Json, HttpCrate}
use solenoid.RpcProxy.Paths.{same_string}

abbrev Text : Type 0
Text = List ℕ

abbrev parts : List Text → Text
parts [] = []
parts (v ∷ l) = length v ∷ v ++ parts l

abbrev pairs : List (Text × Text) → Text
pairs [] = []
pairs ((name, v) ∷ l) = length name ∷ name ++ length v ∷ v ++ pairs l

abbrev split : ℕ → Text → List Text
split zero s = []
split (suc fuel) [] = []
split (suc fuel) (n ∷ rest) = take n rest ∷ split fuel (drop n rest)

abbrev pick : Text → List Text → Option Text
pick name [] = none
pick name (key ∷ []) = none
pick name (key ∷ v ∷ rest) = if same_string key name then some v else pick name rest

abbrev num : ℤ → Text
num (pos n) = 4 ∷ n ∷ []
num (negsuc n) = 5 ∷ n ∷ []

abbrev starts : ℕ → Text → Bool
starts n [] = false
starts n (c ∷ s) = c == n

abbrev below : ℕ → Text → Option Text
below n [] = none
below n (c ∷ s) = if c == n then some s else none

abbrev all_parts : Option Text → Option (List Text)
all_parts none = none
all_parts (some s) = some (split (length s) s)

abbrev find_part : Text → Option (List Text) → Option Text
find_part name none = none
find_part name (some l) = pick name l

abbrev is_empty : Text → Bool
is_empty [] = true
is_empty (c ∷ s) = false

instance abbrev pub plain_json : Json
plain_json = record {
  Value = Text;
  null = [];
  text = λ s. 1 ∷ s;
  number = num;
  list = λ l. 3 ∷ parts l;
  object = λ l. 2 ∷ pairs l;
  is_null = is_empty;
  is_object = starts 2;
  as_str = below 1;
  as_array = λ v. all_parts (below 3 v);
  field = λ name v. find_part name (all_parts (below 2 v));
  to_string = λ v. v;
  from_str = some;
}

-- A failure is a time-out.
instance abbrev pub plain_http : HttpCrate
plain_http = record {
  Failure = ℕ;
  is_connect = λ e. false;
  is_timeout = λ e. true;
  is_request = λ e. false;
  failure_text = λ e. e ∷ [];
  status_text = λ status. status ∷ [];
}
