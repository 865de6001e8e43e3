-- ===== src/ConnPool.antt =====
-- The pool of connections between nodes of src/net/conn_pool.c.
pub mod Lists
pub mod Runs
pub mod Handed
mod Tests
use buckets.Prelude.{
  ℕ, zero, suc, ◌+◌, ◌-◌, Bool, true, false, not, ◌&&◌, List, [], ◌∷◌, Option, none, some,
  if◌then◌else◌, ltb, leb, ◌==◌, take,
}
use buckets.Text.{Bytes, same_text}
use buckets.Status.{Error, invalid_arg, nomem, io, Result, ok, err}

-- `struct buckets_connection`; `id` is its address.
pub record Connection : Type 0 where
  pub id : ℕ
  pub fd : ℕ
  pub host : Bytes
  pub port : ℕ
  pub in_use : Bool
  pub last_used : ℕ

-- `struct buckets_conn_pool`.
pub record ConnPool : Type 0 where
  pub connections : List Connection
  pub max_conns : ℕ
  pub total_conns : ℕ
  pub active_conns : ℕ

abbrev pub create : ℕ → ConnPool
create max_conns = record {
  connections = [];
  max_conns = max_conns;
  total_conns = 0;
  active_conns = 0;
}

abbrev pub is_idle : Bytes → ℕ → Connection → Bool
is_idle host port c = not c.in_use && (same_text c.host host && (c.port == port))

-- The connections that the loop of `buckets_conn_pool_get` leaves, how many it removes, and the one it reuses.
pub record Search : Type 0 where
  pub left : List Connection
  pub removed : ℕ
  pub found : Option ℕ

abbrev pub reuse : ℕ → Connection → List Connection → Search
reuse now c cs = record {
  left = record c { in_use = true; last_used = now } ∷ cs;
  removed = 0;
  found = some c.id;
}

abbrev pub drop_dead : Search → Search
drop_dead s = record s { removed = s.removed + 1 }

abbrev pub pass : Connection → Search → Search
pass c s = record s { left = c ∷ s.left }

-- The loop, where `alive` is `is_connection_alive`.
unfoldable pub search : (ℕ → Bool) → Bytes → ℕ → ℕ → List Connection → Search
search alive host port now [] = record { left = []; removed = 0; found = none }
search alive host port now (c ∷ cs) =
    let rest = search alive host port now cs in
    if is_idle host port c
    then if alive c.fd then reuse now c cs else drop_dead rest
    else pass c rest

-- What `buckets_conn_pool_get` does when it gives up the lock for the first time.
pub data Next : Type 0 where
  reused : ℕ → Next
  refused connect : Next

abbrev pub is_full : ConnPool → Bool
is_full p = ltb 0 p.max_conns && leb p.max_conns p.total_conns

abbrev pub searched : ConnPool → Search → ConnPool
searched p s = record p { connections = s.left; total_conns = p.total_conns - s.removed }

abbrev pub decided : ConnPool → Option ℕ → ConnPool × Next
decided p (some id) = (record p { active_conns = p.active_conns + 1 }, reused id)
decided p none = (p, if is_full p then refused else connect)

unfoldable pub get_idle : ConnPool → (ℕ → Bool) → Bytes → ℕ → ℕ → ConnPool × Next
unfolding search
get_idle p alive host port now =
    let s = search alive host port now p.connections in decided (searched p s) s.found

abbrev pub new_connection : ℕ → ℕ → Bytes → ℕ → ℕ → Connection
new_connection id fd host port now = record {
  id = id;
  fd = fd;
  host = take 255 host;
  port = port;
  in_use = true;
  last_used = now;
}

-- The second part under the lock, once the connection is made.
unfoldable pub add_connection : ConnPool → Connection → ConnPool × Result ℕ
add_connection p c = if is_full p then (p, err nomem) else (
  record p {
    connections = c ∷ p.connections;
    total_conns = p.total_conns + 1;
    active_conns = p.active_conns + 1;
  },
  ok c.id,
)

-- What the rest of the system does during a call: what `create_connection` gives, where the new connection is
-- allocated, and what other threads do to the pool meanwhile.
pub record Outside : Type 0 where
  pub alive : ℕ → Bool
  pub connected : Option ℕ
  pub address : ℕ
  pub others : ConnPool → ConnPool

abbrev pub finish : Outside → Bytes → ℕ → ℕ → ConnPool × Next → Option ℕ → ConnPool × Result ℕ
finish o host port now (p, reused id) fd = (p, ok id)
finish o host port now (p, refused) fd = (p, err nomem)
finish o host port now (p, connect) none = (o.others p, err io)
finish o host port now (p, connect) (some fd) =
    add_connection (o.others p) (new_connection o.address fd host port now)

-- `buckets_conn_pool_get`.
unfoldable pub get : ConnPool → Outside → Bytes → ℕ → ℕ → ConnPool × Result ℕ
unfolding get_idle add_connection
get p o host port now =
    if port == 0
    then (p, err invalid_arg)
    else finish o host port now (get_idle p o.alive host port now) o.connected

unfoldable pub connection_of : List Connection → ℕ → Option Connection
connection_of [] id = none
connection_of (c ∷ cs) id = let rest = connection_of cs id in if c.id == id then some c else rest

unfoldable pub replace : List Connection → ℕ → Connection → List Connection
replace [] id c' = []
replace (c ∷ cs) id c' = let rest = replace cs id c' in if c.id == id then c' ∷ cs else c ∷ rest

unfoldable pub remove : List Connection → ℕ → List Connection
remove [] id = []
remove (c ∷ cs) id = let rest = remove cs id in if c.id == id then cs else c ∷ rest

abbrev pub release_found : ConnPool → ℕ → ℕ → Option Connection → Option ConnPool
release_found p id now none = none
release_found p id now (some c) =
    if not c.in_use
    then some p
    else some (record p {
      connections = replace p.connections id (record c { in_use = false; last_used = now });
      active_conns = p.active_conns - 1;
    })

-- `buckets_conn_pool_release`; none is the use of a connection that has been freed.
unfoldable pub release : ConnPool → ℕ → ℕ → Option ConnPool
unfolding connection_of replace
release p id now = release_found p id now (connection_of p.connections id)

abbrev pub close_found : ConnPool → ℕ → Option Connection → ConnPool × Option Error
close_found p id none = (p, some invalid_arg)
close_found p id (some c) = (
  record p {
    connections = remove p.connections id;
    total_conns = p.total_conns - 1;
    active_conns = if c.in_use then p.active_conns - 1 else p.active_conns;
  },
  none,
)

-- `buckets_conn_pool_close`.
unfoldable pub close : ConnPool → ℕ → ConnPool × Option Error
unfolding connection_of remove
close p id = close_found p id (connection_of p.connections id)

-- `buckets_conn_pool_stats`: total, active and idle.
abbrev pub stats : ConnPool → ℕ × ℕ × ℕ
stats p = (p.total_conns, p.active_conns, p.total_conns - p.active_conns)
