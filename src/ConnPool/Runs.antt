-- ===== src/ConnPool/Runs.antt =====
-- The counts of src/net/conn_pool.c along every run of its operations.
use buckets.Prelude.{
  ℕ, ◌+◌, ◌-◌, ◌≤◌, ◌≡◌, refl, sym, ap, ◌∙◌, subst, Bool, true, false, Option, none, some, length,
  ◌==◌, Bool-cases, Option-cases, arith, inl, inr, ◌⊎◌,
}
use buckets.Prelude.Maybe.{some_injective}
use buckets.Text.{Bytes}
use buckets.ConnPool.{
  Connection, ConnPool, create, Search, search, searched, decided, Next, reused, refused, connect,
  is_full, get_idle, new_connection, add_connection, Outside, finish, get, connection_of, replace,
  release_found, release, close_found, close,
}
use buckets.ConnPool.Lists.{
  used, taken, search-IsCount, length-replace, used-replace, length-remove, used-remove,
}

-- The counters are the numbers of connections and of those in use, and the limit is kept.
pub record IsConsistent (p : ConnPool) : Type 0 where
  pub total : p.total_conns ≡ length p.connections
  pub active : p.active_conns ≡ used p.connections
  pub limit : (p.max_conns ≡ 0) ⊎ (p.total_conns ≤ p.max_conns)

decided-IsConsistent :
    (p : ConnPool) (s : Search)
    → p.total_conns ≡ length s.left + s.removed
    → used s.left ≡ p.active_conns + taken s.found
    → IsConsistent p
    → IsConsistent (decided (searched p s) s.found).0
decided-IsConsistent p s t u v = elim (Option-cases s.found) [
  | inl e ↦
      subst (λ o. IsConsistent (decided (searched p s) o).0) (sym e)
        (record {
          total = omega (arith, t);
          active = omega (arith, u, ap taken e);
          limit = ground (arith, t, v.limit);
        })
  | inr (id, e) ↦
      subst (λ o. IsConsistent (decided (searched p s) o).0) (sym e)
        (record {
          total = omega (arith, t);
          active = omega (arith, u, ap taken e);
          limit = ground (arith, t, v.limit);
        })
]

get_idle-IsConsistent :
    (p : ConnPool) (alive : ℕ → Bool) (host : Bytes) (port now : ℕ)
    → IsConsistent p
    → IsConsistent (get_idle p alive host port now).0
unfolding get_idle
get_idle-IsConsistent p alive host port now v =
    let s = search alive host port now p.connections in
    let n = search-IsCount alive host port now p.connections in
    decided-IsConsistent p s (omega (arith, n.all, v.total)) (omega (arith, n.in_use, v.active)) v

add_connection-IsConsistent :
    (p : ConnPool) (c : Connection)
    → c.in_use ≡ true
    → IsConsistent p
    → IsConsistent (add_connection p c).0
unfolding add_connection used
add_connection-IsConsistent p c e v = elim (Bool-cases (is_full p)) [
  | inl f ↦ rw f v
  | inr f ↦ rw f (record {
    total = omega (arith, v.total);
    active = ground (arith, e, v.active);
    limit = ground (arith, f, v.limit);
  })
]

abbrev given_back : ConnPool → ℕ → ℕ → Connection → ConnPool
given_back p id now c = record p {
  connections = replace p.connections id (record c { in_use = false; last_used = now });
  active_conns = p.active_conns - 1;
}

release_found-idle :
    (p : ConnPool) (id now : ℕ) (c : Connection)
    → c.in_use ≡ false
    → release_found p id now (some c) ≡ some p
release_found-idle p id now c e = rw e refl

release_found-given_back :
    (p : ConnPool) (id now : ℕ) (c : Connection)
    → c.in_use ≡ true
    → release_found p id now (some c) ≡ some (given_back p id now c)
release_found-given_back p id now c e = rw e refl

given_back-IsConsistent :
    (p : ConnPool) (id now : ℕ) (c : Connection)
    → connection_of p.connections id ≡ some c
    → c.in_use ≡ true
    → IsConsistent p
    → IsConsistent (given_back p id now c)
given_back-IsConsistent p id now c e f v =
    let c' = record c { in_use = false; last_used = now } in
    record {
      total = omega (arith, length-replace p.connections id c', v.total);
      active = omega (arith, used-replace p.connections id c c' e f refl, v.active);
      limit = v.limit;
    }

release_found-IsConsistent :
    (p p' : ConnPool) (id now : ℕ) (o : Option Connection)
    → connection_of p.connections id ≡ o
    → release_found p id now o ≡ some p'
    → IsConsistent p
    → IsConsistent p'
release_found-IsConsistent p p' id now none e h v = cc
release_found-IsConsistent p p' id now (some c) e h v = elim (Bool-cases c.in_use) [
  | inr f ↦ subst IsConsistent (some_injective p p' (sym (release_found-idle p id now c f) ∙ h)) v
  | inl f ↦
      subst IsConsistent
        (some_injective (given_back p id now c) p'
          (sym (release_found-given_back p id now c f) ∙ h))
        (given_back-IsConsistent p id now c e f v)
]

close_found-IsConsistent :
    (p : ConnPool) (id : ℕ) (o : Option Connection)
    → connection_of p.connections id ≡ o
    → IsConsistent p
    → IsConsistent (close_found p id o).0
close_found-IsConsistent p id none e v = v
close_found-IsConsistent p id (some c) e v =
    let l = length-remove p.connections id c e in
    let u = used-remove p.connections id c e in
    record {
      total = omega (arith, l, v.total);
      active = ground (arith, u, v.active);
      limit = ground (arith, v.limit);
    }

-- What a thread does under the lock.
pub data Action : ConnPool → ConnPool → Type 0 where
  looked :
      {p : ConnPool} (alive : ℕ → Bool) (host : Bytes) (port now : ℕ)
      → Action p (get_idle p alive host port now).0
  connected :
      {p : ConnPool} (id fd : ℕ) (host : Bytes) (port now : ℕ)
      → Action p (add_connection p (new_connection id fd host port now)).0
  released : {p p' : ConnPool} (id now : ℕ) → release p id now ≡ some p' → Action p p'
  closed : {p : ConnPool} (id : ℕ) → Action p (close p id).0

pub data Runs : ConnPool → ConnPool → Type 0 where
  here : {p : ConnPool} → Runs p p
  then_action : {p p' p'' : ConnPool} → Runs p p' → Action p' p'' → Runs p p''

Action-IsConsistent : {p p' : ConnPool} → Action p p' → IsConsistent p → IsConsistent p'
unfolding release close
Action-IsConsistent (looked {p} alive host port now) v =
    get_idle-IsConsistent p alive host port now v
Action-IsConsistent (connected {p} id fd host port now) v = add_connection-IsConsistent p _ refl v
Action-IsConsistent (released {p} {p'} id now e) v =
    release_found-IsConsistent p p' id now _ refl e v
Action-IsConsistent (closed {p} id) v = close_found-IsConsistent p id _ refl v

runs-IsConsistent : (p p' : ConnPool) → Runs p p' → IsConsistent p → IsConsistent p'
runs-IsConsistent p p' here v = v
runs-IsConsistent p p' (then_action {p' = q} r a) v =
    Action-IsConsistent a (runs-IsConsistent p q r v)

-- Whatever the threads do, and however long a connection takes to be made, the pool's counters are the numbers of its
-- connections and of those in use, and it has no more than `max_conns` of them unless that is 0.
pub create-IsConsistent :
    (max_conns : ℕ) (p : ConnPool) → Runs (create max_conns) p → IsConsistent p
unfolding used
create-IsConsistent max_conns p r =
    runs-IsConsistent (create max_conns) p r
      (record { total = refl; active = refl; limit = inr (omega arith) })

finish-IsConsistent :
    (o : Outside) (host : Bytes) (port now : ℕ) (r : ConnPool × Next) (fd : Option ℕ)
    → ((q : ConnPool) → IsConsistent q → IsConsistent (o.others q))
    → IsConsistent r.0
    → IsConsistent (finish o host port now r fd).0
finish-IsConsistent o host port now (p, reused id) fd h v = v
finish-IsConsistent o host port now (p, refused) fd h v = v
finish-IsConsistent o host port now (p, connect) none h v = h p v
finish-IsConsistent o host port now (p, connect) (some fd) h v =
    add_connection-IsConsistent (o.others p) (new_connection o.address fd host port now) refl
      (h p v)

-- A whole get keeps the counters and the limit too, if what other threads do while it connects does.
pub get-IsConsistent :
    (p : ConnPool) (o : Outside) (host : Bytes) (port now : ℕ)
    → ((q : ConnPool) → IsConsistent q → IsConsistent (o.others q))
    → IsConsistent p
    → IsConsistent (get p o host port now).0
unfolding get
get-IsConsistent p o host port now h v = elim (Bool-cases (port == 0)) [
  | inl e ↦ rw e v
  | inr e ↦ rw e (
      finish-IsConsistent o host port now (get_idle p o.alive host port now) o.connected h
        (get_idle-IsConsistent p o.alive host port now v))
]
