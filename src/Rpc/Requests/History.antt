-- ===== src/Rpc/Requests/History.antt =====
-- The bounded history of finalised requests: eviction drops the oldest entries only.
use codex_python_sdk_unoffic.Common.{
  ℕ, ◌≤◌, ◌<◌, none, some, [], ◌∷◌, ◌++◌, ◌≡◌, refl, arith, length,
}
use codex_python_sdk_unoffic.Common.Dict
use codex_python_sdk_unoffic.Common.Dict.{
  Dict, IsKeyed, get-append_none, put_new, get-put, put-IsKeyed,
}
use codex_python_sdk_unoffic.Rpc.Envelope.{JsonRpcId, id_eq, id_beq_iff}
use codex_python_sdk_unoffic.Rpc.Requests.{FinalizedRequest, evict}

abbrev History : Type 0
History = Dict JsonRpcId FinalizedRequest

pub length-evict-le : (limit : ℕ) (d : History) → length (evict limit d) ≤ limit
unfolding evict
length-evict-le limit [] = omega arith
length-evict-le limit (x ∷ d) = ground (arith, length-evict-le limit d)

pub evict_short : (limit : ℕ) (d : History) → length d ≤ limit → evict limit d ≡ d
unfolding evict
evict_short limit [] h = refl
evict_short limit (x ∷ d) h = ground arith

pub get-evict-none :
    (limit : ℕ) (j : JsonRpcId) (d : History)
    → Dict.get j d ≡ none
    → Dict.get j (evict limit d) ≡ none
unfolding evict Dict.get
get-evict-none limit j [] h = refl
get-evict-none limit j ((i, w) ∷ d) h = ground (arith, get-evict-none limit j d)

pub evict-IsKeyed : (limit : ℕ) (d : History) → IsKeyed d → IsKeyed (evict limit d)
unfolding evict
evict-IsKeyed limit [] h = tt
evict-IsKeyed limit (x ∷ d) h = ground (arith, evict-IsKeyed limit d h.1)

-- the newest entry stays
get-evict_last :
    (limit : ℕ) (k : JsonRpcId) (v : FinalizedRequest) (d : History)
    → 0 < limit
    → Dict.get k d ≡ none
    → Dict.get k (evict limit (d ++ (k, v) ∷ [])) ≡ some v
unfolding evict Dict.get
get-evict_last limit k v [] h e = ground (arith, id_beq_iff k k)
get-evict_last limit k v ((i, w) ∷ d) h e =
    ground (arith, get-evict_last limit k v d h, get-append_none k d ((k, v) ∷ []), id_beq_iff k k)

pub get-evict-put_new :
    (limit : ℕ) (k : JsonRpcId) (v : FinalizedRequest) (d : History)
    → 0 < limit
    → Dict.get k d ≡ none
    → Dict.get k (evict limit (Dict.put k v d)) ≡ some v
get-evict-put_new limit k v d h e = rw (put_new k v d e) (get-evict_last limit k v d h e)

-- an entry that is found after eviction was there before
pub get-evict-some :
    (limit : ℕ) (j : JsonRpcId) (v : FinalizedRequest) (d : History)
    → IsKeyed d
    → Dict.get j (evict limit d) ≡ some v
    → Dict.get j d ≡ some v
unfolding evict Dict.get
get-evict-some limit j v [] k h = h
get-evict-some limit j v ((i, w) ∷ d) k h =
    ground (arith, id_beq_iff i j, get-evict-some limit j v d k.1, get-evict-none limit j d)
