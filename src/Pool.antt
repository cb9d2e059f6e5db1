-- ===== src/Pool.antt =====
-- include/WSWorkersPool.h, the workers and whose turn it is, and include/Balancer.h, which hands
-- them the accepted sockets. A worker that is handed out is its place in the pool.
pub mod Shares
pub mod Select
use lapp_s.Common.{
  ℕ, zero, suc, ◌+◌, Bool, true, false, Option, some, none, List, [], ◌∷◌, ◌++◌, ltb, ◌==◌,
  if◌then◌else◌, length, replicate, Dict,
}
use lapp_s.Http
use lapp_s.Registry.{Registry}
use lapp_s.Worker.{Worker}
use lapp_s.Worker.Execute.{enqueue}
use lapp_s.Stats.{IoStats, Table, assigned}

-- What `abstract::Worker` holds, and the state of the `IOWorker`.
pub record Pooled : Type 0 where
  pub id : ℕ
  pub auto_fragment : Bool
  pub worker : Worker

-- `max_inbounds_skip` is read from the configuration, the registry is a singleton; `dc_send` and
-- `in_send` are the `send` of `itc::cfifo` and of `itc::tsbqueue`.
unfoldable pub new_worker :
    (List ℕ → ℕ → List ℕ) → (List ℕ → ℕ → List ℕ) → ℕ → Registry → ℕ → Bool → ℕ → Pooled
new_worker dc_send in_send skip registry max_connections auto_fragment id = record {
  id = id;
  auto_fragment = auto_fragment;
  worker = record {
    max_connections = max_connections;
    connections = [];
    connection_count = 0;
    message_count = 0;
    have_connections = false;
    disconnect_queue = [];
    dc_send = dc_send;
    have_disconnects = false;
    may_run = true;
    in_queue = [];
    in_send = in_send;
    counter = 0;
    max_inbounds_skip = skip;
    registry = registry;
    request_parser = Http.new_parser;
    header_buffer = replicate 1024 0;
  };
}

pub record Pool : Type 0 where
  pub workers : List Pooled
  pub cursor : ℕ

abbrev pub empty_pool : Pool
empty_pool = record { workers = []; cursor = 0 }

unfoldable pub spawn :
    (List ℕ → ℕ → List ℕ) → (List ℕ → ℕ → List ℕ) → ℕ → Registry → ℕ → Bool → Pool → Pool
spawn dc_send in_send skip registry max_connections auto_fragment p = record p {
  workers =
      p.workers
      ++ (new_worker dc_send in_send skip registry max_connections auto_fragment (length p.workers)
          ∷ []);
}

-- The loop of the server's constructor, include/wsServer.h.
unfoldable pub spawn_all :
    ℕ → (List ℕ → ℕ → List ℕ) → (List ℕ → ℕ → List ℕ) → ℕ → Registry → ℕ → Bool → Pool → Pool
spawn_all zero dc_send in_send skip registry max_connections auto_fragment p = p
spawn_all (suc n) dc_send in_send skip registry max_connections auto_fragment p =
    spawn_all n dc_send in_send skip registry max_connections auto_fragment
      (spawn dc_send in_send skip registry max_connections auto_fragment p)

-- `next`; `none` is the `std::logic_error`.
unfoldable pub next : Pool → Option (ℕ × Pool)
next p =
    if length p.workers == 0
    then none
    else if ltb p.cursor (length p.workers)
    then some (p.cursor, record p { cursor = p.cursor + 1 })
    else some (0, record p { cursor = 1 })

-- `get`; `none` is the `std::system_error`.
unfoldable pub nth : List Pooled → ℕ → Option Pooled
nth [] i = none
nth (w ∷ ws) zero = some w
nth (w ∷ ws) (suc i) = nth ws i

unfoldable pub get : Pool → ℕ → Option Pooled
get p wid = if ltb wid (length p.workers) then nth p.workers wid else none

unfoldable pub enqueue_at : ℕ → ℕ → List Pooled → List Pooled
enqueue_at i fd [] = []
enqueue_at zero fd (w ∷ ws) = record w { worker = enqueue w.worker (fd ∷ []) } ∷ ws
enqueue_at (suc i) fd (w ∷ ws) = w ∷ enqueue_at i fd ws

-- `onUpdate` of the balancer, for a socket; what `next` throws is ignored.
unfoldable pub to_turn : ℕ → Pool → Option (ℕ × Pool) → Pool
to_turn fd p none = p
to_turn fd p (some (i, q)) = record q { workers = enqueue_at i fd q.workers }

unfoldable pub on_update : ℕ → Pool → Pool
on_update fd p = to_turn fd p (next p)

-- `onUpdate` for the sockets of one call of the listener
unfoldable pub on_updates : List ℕ → Pool → Pool
on_updates [] p = p
on_updates (fd ∷ fds) p = on_updates fds (on_update fd p)

-- `selectWorker`. `weighted n q` is `n` times the weight of a connection plus `q`, cut to a
-- whole number: the weight is a floating-point number.
module _ (weighted : ℕ → ℕ → ℕ) where
  unfoldable pub load : IoStats → ℕ
  load s = weighted (s.connections + s.in_queue_depth) s.event_q_size

  unfoldable pub choose : ℕ → IoStats → Table → ℕ
  choose wid detail [] = wid
  choose wid detail ((key, value) ∷ stats) =
      if ltb (load value) (load detail)
      then choose key (assigned detail value) stats
      else choose wid detail stats

  -- `none` is the `std::system_error`.
  unfoldable pub select_worker : Table → Option ℕ
  select_worker [] = none
  select_worker ((key, value) ∷ stats) = some (choose key value ((key, value) ∷ stats))
