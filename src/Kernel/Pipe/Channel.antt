-- ===== src/Kernel/Pipe/Channel.antt =====
-- What a pipe promises: a bounded queue of bytes whose two ends can be open or closed.
use os_porting.Base.{ℕ, ◌-◌, min, Bool, List, [], ◌++◌, ◌==◌, if◌then◌else◌, length, take, drop}
use os_porting.Kernel.Pipe.{Status, bytes, fail, invalid, closed, would_block, buffer_size}

pub record Channel : Type 0 where
  pub held : List ℕ
  pub can_read : Bool
  pub can_write : Bool

-- The oldest bytes leave; an empty channel is at its end when nobody can write any more.
unfoldable pub receive : Bool → ℕ → Channel → Status × List ℕ × Channel
receive null n c =
    if null
    then (fail invalid, [], c)
    else if n == 0
    then (bytes 0, [], c)
    else if c.can_read
    then (if length c.held == 0
        then (if c.can_write then (fail would_block, [], c) else (bytes 0, [], c))
        else (
          bytes (min n (length c.held)),
          take (min n (length c.held)) c.held,
          record c { held = drop (min n (length c.held)) c.held },
        ))
    else (fail closed, [], c)

-- As many bytes enter as there is room for.
unfoldable pub send : Bool → List ℕ → Channel → Status × Channel
send null src c =
    if null
    then (fail invalid, c)
    else if length src == 0
    then (bytes 0, c)
    else if c.can_write
    then (if c.can_read
        then (if length c.held == buffer_size
            then (fail would_block, c)
            else (let k = min (length src) (buffer_size - length c.held) in
                (bytes k, record c { held = c.held ++ take k src })))
        else (fail closed, c))
    else (fail closed, c)
