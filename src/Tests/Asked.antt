-- ===== src/Tests/Asked.antt =====
-- Tests of the handler of the proxy.
use mathlib.Core.Option
use solenoid.Base.{ℕ, ◌≡◌, refl, Bool, true, false, none, some, List, [], ◌∷◌, ltb, if◌then◌else◌}
use solenoid.RpcProxy.Words
use solenoid.RpcProxy.Retry.{Answer, retry, retry_loop}
use solenoid.RpcProxy.Paths.{same_string, with_tmp, file_stem, before_dot}
use solenoid.RpcProxy.Encoding.{normalize_hex, trim_0x, lower}
use solenoid.RpcProxy.Cache.{get_tx, put_tx, read_gz_string, write_gz_string}
use solenoid.RpcProxy.Handler.{
  AppState, Upstream, ForwardError, balance, transaction, jsonrpc_ok, forward, is_retryable,
  is_latest, route, param,
}
use solenoid.RpcProxy.Handler.Requests.{cacheable_query, handle_jsonrpc}
use solenoid.RpcProxy.Handler.Local.{handle_jsonrpc_offline}
use solenoid.RpcProxy.Handler.Remembered.{handle_jsonrpc_remembers}
use solenoid.Tests.Stores.{plain_hex, plain_store, plain_files}
use solenoid.Tests.Values.{plain_json, plain_http}

-- A request for the transaction `0xab`.
abbrev hash : List ℕ
hash = 48 ∷ 120 ∷ 97 ∷ 98 ∷ []

abbrev request : plain_json.Value
request = plain_json.object (
    (Words.id, plain_json.text (55 ∷ []))
    ∷ (Words.method, plain_json.text Words.eth_get_transaction_by_hash)
    ∷ (Words.params, plain_json.list (plain_json.text hash ∷ []))
    ∷ [])

abbrev tx : plain_json.Value
tx = plain_json.object ((Words.hash, plain_json.text hash) ∷ [])

abbrev answer : plain_json.Value
answer = plain_json.object ((Words.result, tx) ∷ [])

-- An upstream that times out twice, and one that is gone.
abbrev flaky : Upstream
flaky url body n =
    if ltb n 2 then Answer.failure (ForwardError.reqwest 0) else Answer.success answer

abbrev gone : Upstream
gone url body n = Answer.failure (ForwardError.http_status 404 [])

abbrev fresh : Bool → AppState
fresh offline = record {
  upstream_url = [];
  cache = record {
    balance_db = λ key. none;
    nonce_db = λ key. none;
    storage_dbs = λ addr. none;
    files = λ p. none;
  };
  offline = offline;
  empty = false;
}

asked : cacheable_query false request ≡ some (transaction hash)
unfolding cacheable_query is_latest route param same_string Option.bind
asked = refl

not_there : (get_tx hash (fresh false).cache).0 ≡ some none
unfolding get_tx read_gz_string
not_there = refl

answered : forward flaky (fresh false) request ≡ some (Answer.success answer)
unfolding forward retry retry_loop is_retryable
answered = refl

stored : (put_tx hash tx (fresh false).cache).0 ≡ some tt
unfolding put_tx write_gz_string with_tmp file_stem before_dot same_string normalize_hex trim_0x
    lower
stored = refl

no_error : plain_json.field Words.error answer ≡ none
unfolding same_string
no_error = refl

result : plain_json.field Words.result answer ≡ some tx
unfolding same_string
result = refl

handle_jsonrpc_remembers_example :
    (handle_jsonrpc gone request (handle_jsonrpc flaky request (fresh false)).1).0
    ≡ some (jsonrpc_ok (Option.get_or (plain_json.field Words.id request) plain_json.null) tx)
handle_jsonrpc_remembers_example =
    handle_jsonrpc_remembers flaky gone request answer tx tx (fresh false) hash refl refl asked
      not_there refl answered no_error result refl refl refl stored

handle_jsonrpc_offline_example :
    handle_jsonrpc flaky request (fresh true) ≡ handle_jsonrpc gone request (fresh true)
handle_jsonrpc_offline_example =
    handle_jsonrpc_offline flaky gone request (fresh true) (transaction hash) refl refl refl asked

-- A balance at the latest block is served from the cache: the block is the second parameter.
abbrev latest_request : plain_json.Value
latest_request = plain_json.object (
    (Words.method, plain_json.text Words.eth_get_balance)
    ∷ (Words.params, plain_json.list (plain_json.text hash ∷ plain_json.text Words.latest ∷ []))
    ∷ [])

latest_test : cacheable_query false latest_request ≡ some (balance hash Words.latest)
unfolding cacheable_query is_latest route param same_string Option.bind
latest_test = refl
