-- ===== src/ConnPool/Tests.antt =====
-- Runs of the model of src/net/conn_pool.c at concrete inputs.
use buckets.Prelude.{ℕ, ◌≡◌, refl, Bool, true, false, [], ◌∷◌, none, some, ◌⊎◌}
use buckets.Text.{Bytes, codes}
use buckets.Status.{err, nomem}
use buckets.ConnPool.{
  Connection, ConnPool, create, search, reused, get_idle, add_connection, new_connection,
  connection_of, Outside, get,
}
use buckets.ConnPool.Runs.{IsConsistent, create-IsConsistent, here, then_action, connected}
use buckets.ConnPool.Handed.{Holds, IsOffer, IsHanded, in_use_at, get_idle-reused}

abbrev node : Bytes
node = codes "node"

abbrev one : ConnPool
one = (add_connection (create 2) (new_connection 100 7 node 9000 1)).0

create-IsConsistent_example : IsConsistent one
create-IsConsistent_example =
    create-IsConsistent 2 one (then_action here (connected 100 7 node 9000 1))

-- Two connections, of which the first is idle.
abbrev idle : Connection
idle = record (new_connection 100 7 node 9000 1) { in_use = false }

abbrev busy : Connection
busy = new_connection 200 8 node 9000 1

abbrev two : ConnPool
two = record { connections = idle ∷ busy ∷ []; max_conns = 2; total_conns = 2; active_conns = 1 }

abbrev answers : ℕ → Bool
answers fd = true

finds_idle : (get_idle two answers node 9000 5).1 ≡ reused 100
unfolding get_idle search
finds_idle = refl

finds_busy : connection_of two.connections 200 ≡ some busy
unfolding connection_of
finds_busy = refl

get_idle-reused_example :
    Holds two.connections (IsOffer answers node 9000 100)
    × Holds (get_idle two answers node 9000 5).0.connections (IsHanded node 9000 100)
    × ((in_use_at two.connections 200 ≡ none)
        ⊎ (connection_of (get_idle two answers node 9000 5).0.connections 200
            ≡ in_use_at two.connections 200))
get_idle-reused_example = get_idle-reused two answers node 9000 5 100 200 finds_idle

-- While a connection is made another thread can take the last place.
abbrev overtaken : Outside
overtaken = record {
  alive = λ fd. false;
  connected = some 9;
  address = 300;
  others = λ p. (add_connection p (new_connection 400 10 node 9000 2)).0;
}

get-overtaken : (get (create 1) overtaken node 9000 1).1 ≡ err nomem
unfolding get get_idle search add_connection
get-overtaken = refl
