-- ===== src/Server.antt =====
-- Which listening sockets src/netserver.c accepts from, and in which order.
pub mod Accept
pub mod Options
mod Tests
use netperf_copilot.Common.{
  ℕ, zero, suc, ◌+◌, ◌-◌, Bool, true, false, ◌&&◌, ◌||◌, List, [], ◌∷◌, Option, none, some, ltb,
  leb, ◌==◌, if◌then◌else◌, ℤ, pos, negsuc,
}

-- An fd_set.
abbrev pub FdSet : Type 0
FdSet = ℕ → Bool

abbrev pub fd_zero : FdSet
fd_zero fd = false

abbrev pub fd_set : ℕ → FdSet → FdSet
fd_set fd fds n = n == fd || fds n

abbrev pub fd_clr : ℕ → FdSet → FdSet
fd_clr fd fds n = if n == fd then false else fds n

-- `temp->fd > max`, where INVALID_SOCKET is -1
abbrev pub above : ℕ → ℤ → Bool
above fd (pos max) = ltb max fd
above fd (negsuc n) = true

-- The loop of set_fdset over the descriptors of the list.
pub fdset_loop : List ℕ → ℤ → FdSet → ℤ × FdSet
fdset_loop [] max fdset = (max, fdset)
fdset_loop (fd ∷ list) max fdset =
    fdset_loop list (if above fd max then pos fd else max) (fd_set fd fdset)

-- set_fdset
pub set_fdset : List ℕ → ℤ × FdSet
set_fdset list = fdset_loop list (negsuc 0) fd_zero

abbrev pub with_fd : ℕ → Option (List ℕ) → Option (List ℕ)
with_fd fd none = none
with_fd fd (some fds) = some (fd ∷ fds)

-- The loop of accept_connections behind a select() that has left `read_fds` and returned
-- `num_ready`: the descriptors that accept_connection() is called with, in order. `high_fd` is not
-- negative, since netserver listens on one socket at least. `none`: it takes
-- more rounds than `fuel`.
pub accept_loop : ℕ → ℕ → ℕ → ℕ → FdSet → Option (List ℕ)
accept_loop zero candidate high_fd num_ready read_fds =
    if num_ready == 0 || ltb high_fd candidate then some [] else none
accept_loop (suc fuel) candidate high_fd num_ready read_fds =
    elim (num_ready == 0 || ltb high_fd candidate) [
      | true ↦ some []
      | false ↦ elim (read_fds candidate) [
        | true ↦
            with_fd candidate
              (accept_loop fuel candidate high_fd (num_ready - 1) (fd_clr candidate read_fds))
        | false ↦ accept_loop fuel (suc candidate) high_fd num_ready read_fds
      ]
    ]
