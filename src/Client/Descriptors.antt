-- ===== src/Client/Descriptors.antt =====
-- wv_ipc/wave_ipc_client.c: the descriptors of a client are closed or in its fields.
use dwpal.Common.{
  ℕ, ◌+◌, ◌≡◌, refl, ap, ◌∙◌, Bool, true, false, not, List, [], ◌∷◌, Option, none, some,
  if◌then◌else◌, count, arith, if-cases,
}
use dwpal.Client.Connection.{
  Connection, System, close_fd, socket_deinit, failure, make_socket, make_pipe, socket_init,
}

-- How often a descriptor is held in a field.
abbrev pub in_field : ℕ → Option ℕ → ℕ
in_field x none = 0
in_field x (some fd) = count x (fd ∷ [])

count-close_fd :
    (x : ℕ) (o : Option ℕ) (closed : List ℕ)
    → count x (close_fd o closed) ≡ in_field x o + count x closed
count-close_fd x none closed = omega arith
count-close_fd x (some fd) closed = omega arith

-- Each descriptor that was opened is closed or in one field.
abbrev pub Owns : Connection → Type 0
Owns c =
    (x : ℕ)
    → count x c.opened
      ≡ count x c.closed + in_field x c.socket + in_field x c.pipe_read + in_field x c.pipe_write

-- None is in a field.
abbrev pub Closes : Connection → Type 0
Closes c = (x : ℕ) → count x c.opened ≡ count x c.closed

pub socket_deinit-Closes : (sys : System) (c : Connection) → Owns c → Closes (socket_deinit sys c).1
unfolding socket_deinit
socket_deinit-Closes sys c o x = omega (
  arith,
  o x,
  count-close_fd x c.socket (close_fd c.pipe_write (close_fd c.pipe_read c.closed)),
  count-close_fd x c.pipe_write (close_fd c.pipe_read c.closed),
  count-close_fd x c.pipe_read c.closed,
)

pub socket_deinit-Owns : (sys : System) (c : Connection) → Owns c → Owns (socket_deinit sys c).1
unfolding socket_deinit
socket_deinit-Owns sys c o x = omega (
  arith,
  o x,
  count-close_fd x c.socket (close_fd c.pipe_write (close_fd c.pipe_read c.closed)),
  count-close_fd x c.pipe_write (close_fd c.pipe_read c.closed),
  count-close_fd x c.pipe_read c.closed,
)

-- A socket that could be made, or that could not: then all is closed.
abbrev Made : Bool × Connection → Type 0
Made r = Owns r.1 × (r.0 ≡ false → Closes r.1)

failure-Made : (c : Connection) → Owns c → Made (failure c)
unfolding failure
failure-Made c o = ((λ x. closes x ∙ (omega arith)), (λ _. closes))
  where
    closes :
        (x : ℕ)
        → count x c.opened
          ≡ count x (close_fd c.pipe_write (close_fd c.pipe_read (close_fd c.socket c.closed)))
    closes x = omega (
      arith,
      o x,
      count-close_fd x c.pipe_write (close_fd c.pipe_read (close_fd c.socket c.closed)),
      count-close_fd x c.pipe_read (close_fd c.socket c.closed),
      count-close_fd x c.socket c.closed,
    )

made : (c : Connection) → Owns c → Made (true, c)
made c o = (o, (λ h. absurd (cc h)))

make_socket-Made :
    (sys : System) (c : Connection) → Owns c → c.socket ≡ none → Made (make_socket sys c)
unfolding make_socket
make_socket-Made sys c o no_socket =
    elim sys.new_socket
      as (λ (n : Option ℕ). Made (elim n [
        | none ↦ failure (record c { socket = none })
        | some fd ↦
            let c' : Connection = record c { socket = some fd; opened = fd ∷ c.opened } in
            if not sys.cloexec_ok
            then failure c'
            else if not sys.bind_ok
            then failure c'
            else (true, c')
      ])) [
        | none ↦
            failure-Made (record c { socket = none })
              (λ x. omega (arith, o x, ap (in_field x) no_socket))
        | some fd ↦
            let c' : Connection = record c { socket = some fd; opened = fd ∷ c.opened } in
            let o' : Owns c' = λ x. omega (arith, o x, ap (in_field x) no_socket) in
            let bound : Bool × Connection = if not sys.bind_ok then failure c' else (true, c') in
            if-cases Made (not sys.cloexec_ok) (failure c') bound (λ _. failure-Made c' o')
              (λ _.
                if-cases Made (not sys.bind_ok) (failure c') (true, c') (λ _. failure-Made c' o')
                  (λ _. made c' o'))
      ]

make_pipe-Made :
    (sys : System) (c : Connection)
    → Owns c
    → c.socket ≡ none
    → c.pipe_read ≡ none
    → c.pipe_write ≡ none
    → Made (make_pipe sys c)
unfolding make_pipe
make_pipe-Made sys c o no_socket no_read no_write =
    elim sys.new_pipe
      as (λ (n : Option (ℕ × ℕ)). Made (elim n [
        | none ↦ failure c
        | some fds ↦
            let c' : Connection = record c {
              pipe_read = some fds.0;
              pipe_write = some fds.1;
              opened = fds.0 ∷ fds.1 ∷ c.opened;
            } in
            if not sys.nonblock_ok then failure c' else make_socket sys c'
      ])) [
        | none ↦ failure-Made c o
        | some fds ↦
            let c' : Connection = record c {
              pipe_read = some fds.0;
              pipe_write = some fds.1;
              opened = fds.0 ∷ fds.1 ∷ c.opened;
            } in
            let o' : Owns c' =
              λ x. omega (arith, o x, ap (in_field x) no_read, ap (in_field x) no_write) in
            if-cases Made (not sys.nonblock_ok) (failure c') (make_socket sys c')
              (λ _. failure-Made c' o') (λ _. make_socket-Made sys c' o' no_socket)
      ]

pub socket_init-Made : (sys : System) (c : Connection) → Owns c → Made (socket_init sys c)
unfolding socket_init
socket_init-Made sys c o =
    let r = socket_deinit sys c in
    if-cases Made (not r.0) (false, r.1) (make_pipe sys r.1)
      (λ _. (socket_deinit-Owns sys c o, (λ _. socket_deinit-Closes sys c o)))
      (λ _.
        make_pipe-Made sys r.1 (socket_deinit-Owns sys c o) (unfold socket_deinit in refl)
          (unfold socket_deinit in refl) (unfold socket_deinit in refl))
