-- ===== src/RpcProxy/Words.antt =====
-- The strings of rpc-proxy/src/main.rs, as lists of bytes.
use solenoid.Base.{ℕ, List, [], ◌∷◌, replicate}

-- `eth_getStorageAt`
abbrev pub eth_get_storage_at : List ℕ
eth_get_storage_at =
    101 ∷ 116 ∷ 104 ∷ 95 ∷ 103 ∷ 101 ∷ 116 ∷ 83 ∷ 116 ∷ 111 ∷ 114 ∷ 97 ∷ 103 ∷ 101 ∷ 65 ∷ 116 ∷ []

-- `eth_getBalance`
abbrev pub eth_get_balance : List ℕ
eth_get_balance = 101 ∷ 116 ∷ 104 ∷ 95 ∷ 103 ∷ 101 ∷ 116 ∷ 66 ∷ 97 ∷ 108 ∷ 97 ∷ 110 ∷ 99 ∷ 101 ∷ []

-- `eth_getTransactionCount`
abbrev pub eth_get_transaction_count : List ℕ
eth_get_transaction_count =
    101 ∷ 116 ∷ 104 ∷ 95 ∷ 103 ∷ 101 ∷ 116 ∷ 84 ∷ 114 ∷ 97 ∷ 110 ∷ 115 ∷ 97 ∷ 99 ∷ 116 ∷ 105 ∷ 111
    ∷ 110 ∷ 67 ∷ 111 ∷ 117 ∷ 110 ∷ 116 ∷ []

-- `eth_getCode`
abbrev pub eth_get_code : List ℕ
eth_get_code = 101 ∷ 116 ∷ 104 ∷ 95 ∷ 103 ∷ 101 ∷ 116 ∷ 67 ∷ 111 ∷ 100 ∷ 101 ∷ []

-- `eth_getBlockByHash`
abbrev pub eth_get_block_by_hash : List ℕ
eth_get_block_by_hash =
    101 ∷ 116 ∷ 104 ∷ 95 ∷ 103 ∷ 101 ∷ 116 ∷ 66 ∷ 108 ∷ 111 ∷ 99 ∷ 107 ∷ 66 ∷ 121 ∷ 72 ∷ 97 ∷ 115
    ∷ 104 ∷ []

-- `eth_getBlockByNumber`
abbrev pub eth_get_block_by_number : List ℕ
eth_get_block_by_number =
    101 ∷ 116 ∷ 104 ∷ 95 ∷ 103 ∷ 101 ∷ 116 ∷ 66 ∷ 108 ∷ 111 ∷ 99 ∷ 107 ∷ 66 ∷ 121 ∷ 78 ∷ 117 ∷ 109
    ∷ 98 ∷ 101 ∷ 114 ∷ []

-- `eth_getTransactionByHash`
abbrev pub eth_get_transaction_by_hash : List ℕ
eth_get_transaction_by_hash =
    101 ∷ 116 ∷ 104 ∷ 95 ∷ 103 ∷ 101 ∷ 116 ∷ 84 ∷ 114 ∷ 97 ∷ 110 ∷ 115 ∷ 97 ∷ 99 ∷ 116 ∷ 105 ∷ 111
    ∷ 110 ∷ 66 ∷ 121 ∷ 72 ∷ 97 ∷ 115 ∷ 104 ∷ []

-- `eth_getTransactionReceipt`
abbrev pub eth_get_transaction_receipt : List ℕ
eth_get_transaction_receipt =
    101 ∷ 116 ∷ 104 ∷ 95 ∷ 103 ∷ 101 ∷ 116 ∷ 84 ∷ 114 ∷ 97 ∷ 110 ∷ 115 ∷ 97 ∷ 99 ∷ 116 ∷ 105 ∷ 111
    ∷ 110 ∷ 82 ∷ 101 ∷ 99 ∷ 101 ∷ 105 ∷ 112 ∷ 116 ∷ []

-- `eth_blockNumber`
abbrev pub eth_block_number : List ℕ
eth_block_number =
    101 ∷ 116 ∷ 104 ∷ 95 ∷ 98 ∷ 108 ∷ 111 ∷ 99 ∷ 107 ∷ 78 ∷ 117 ∷ 109 ∷ 98 ∷ 101 ∷ 114 ∷ []

-- `latest`
abbrev pub latest : List ℕ
latest = 108 ∷ 97 ∷ 116 ∷ 101 ∷ 115 ∷ 116 ∷ []

-- `pending`
abbrev pub pending : List ℕ
pending = 112 ∷ 101 ∷ 110 ∷ 100 ∷ 105 ∷ 110 ∷ 103 ∷ []

-- `earliest`
abbrev pub earliest : List ℕ
earliest = 101 ∷ 97 ∷ 114 ∷ 108 ∷ 105 ∷ 101 ∷ 115 ∷ 116 ∷ []

-- `method`
abbrev pub method : List ℕ
method = 109 ∷ 101 ∷ 116 ∷ 104 ∷ 111 ∷ 100 ∷ []

-- `params`
abbrev pub params : List ℕ
params = 112 ∷ 97 ∷ 114 ∷ 97 ∷ 109 ∷ 115 ∷ []

-- `id`
abbrev pub id : List ℕ
id = 105 ∷ 100 ∷ []

-- `error`
abbrev pub error : List ℕ
error = 101 ∷ 114 ∷ 114 ∷ 111 ∷ 114 ∷ []

-- `result`
abbrev pub result : List ℕ
result = 114 ∷ 101 ∷ 115 ∷ 117 ∷ 108 ∷ 116 ∷ []

-- `hash`
abbrev pub hash : List ℕ
hash = 104 ∷ 97 ∷ 115 ∷ 104 ∷ []

-- `number`
abbrev pub number : List ℕ
number = 110 ∷ 117 ∷ 109 ∷ 98 ∷ 101 ∷ 114 ∷ []

-- `jsonrpc`
abbrev pub jsonrpc : List ℕ
jsonrpc = 106 ∷ 115 ∷ 111 ∷ 110 ∷ 114 ∷ 112 ∷ 99 ∷ []

-- `2.0`
abbrev pub two_zero : List ℕ
two_zero = 50 ∷ 46 ∷ 48 ∷ []

-- `code`
abbrev pub code : List ℕ
code = 99 ∷ 111 ∷ 100 ∷ 101 ∷ []

-- `message`
abbrev pub message : List ℕ
message = 109 ∷ 101 ∷ 115 ∷ 115 ∷ 97 ∷ 103 ∷ 101 ∷ []

-- `url`
abbrev pub url : List ℕ
url = 117 ∷ 114 ∷ 108 ∷ []

-- `block`
abbrev pub block : List ℕ
block = 98 ∷ 108 ∷ 111 ∷ 99 ∷ 107 ∷ []

-- `Invalid Request`
abbrev pub invalid_request : List ℕ
invalid_request =
    73 ∷ 110 ∷ 118 ∷ 97 ∷ 108 ∷ 105 ∷ 100 ∷ 32 ∷ 82 ∷ 101 ∷ 113 ∷ 117 ∷ 101 ∷ 115 ∷ 116 ∷ []

-- `Server running in offline mode`
abbrev pub server_running_in_offline_mode : List ℕ
server_running_in_offline_mode =
    83 ∷ 101 ∷ 114 ∷ 118 ∷ 101 ∷ 114 ∷ 32 ∷ 114 ∷ 117 ∷ 110 ∷ 110 ∷ 105 ∷ 110 ∷ 103 ∷ 32 ∷ 105 ∷ 110
    ∷ 32 ∷ 111 ∷ 102 ∷ 102 ∷ 108 ∷ 105 ∷ 110 ∷ 101 ∷ 32 ∷ 109 ∷ 111 ∷ 100 ∷ 101 ∷ []

-- `upstream error`
abbrev pub upstream_error : List ℕ
upstream_error =
    117 ∷ 112 ∷ 115 ∷ 116 ∷ 114 ∷ 101 ∷ 97 ∷ 109 ∷ 32 ∷ 101 ∷ 114 ∷ 114 ∷ 111 ∷ 114 ∷ []

-- `invalid response`
abbrev pub invalid_response : List ℕ
invalid_response =
    105 ∷ 110 ∷ 118 ∷ 97 ∷ 108 ∷ 105 ∷ 100 ∷ 32 ∷ 114 ∷ 101 ∷ 115 ∷ 112 ∷ 111 ∷ 110 ∷ 115 ∷ 101 ∷ []

-- `ignored`
abbrev pub ignored : List ℕ
ignored = 105 ∷ 103 ∷ 110 ∷ 111 ∷ 114 ∷ 101 ∷ 100 ∷ []

-- `URL updated`
abbrev pub url_updated : List ℕ
url_updated = 85 ∷ 82 ∷ 76 ∷ 32 ∷ 117 ∷ 112 ∷ 100 ∷ 97 ∷ 116 ∷ 101 ∷ 100 ∷ []

-- `Request failed: `
abbrev pub request_failed : List ℕ
request_failed =
    82 ∷ 101 ∷ 113 ∷ 117 ∷ 101 ∷ 115 ∷ 116 ∷ 32 ∷ 102 ∷ 97 ∷ 105 ∷ 108 ∷ 101 ∷ 100 ∷ 58 ∷ 32 ∷ []

-- `0x` and 64 zeros.
abbrev pub zero_word : List ℕ
zero_word = 48 ∷ 120 ∷ replicate 64 48
