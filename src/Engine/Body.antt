-- ===== src/Engine/Body.antt =====
-- internal/match/engine.go: `readBody`.
use mockulus.Prelude.{
  ℕ, ◌+◌, ◌%◌, ◌^◌, Bool, not, ◌&&◌, ◌||◌, Option, none, some, [], Text, if◌then◌else◌, ltb, length,
}
use mockulus.Prelude.Int.{ℤ, pos, pos_part, ◌<ℤ◌, ◌==ℤ◌}

-- A request's body: whether there is one, the declared length, and what `io.ReadAll`, `io.ReadFull`
-- of a number of bytes and `io.ReadAll` under an `io.LimitReader` give; `none` is an error.
pub record Incoming : Type 0 where
  pub present : Bool
  pub content_length : ℤ
  pub read_all : Option Text
  pub read_full : ℕ → Option Text
  pub read_limited : ℕ → Option Text

pub data Body : Type 0 where
  read : Text → Body
  too_large : Body

-- A body that breaks off is matched as an empty one.
unfoldable pub or_empty_body : Option Text → Text
or_empty_body none = []
or_empty_body (some body) = body

-- `limit+1` in an `int64`: past the greatest it is negative, and a reader gives nothing.
abbrev pub one_past : ℕ → ℕ
one_past limit = (limit + 1) % 2 ^ 63

unfoldable pub under_cap : ℕ → Option Text → Body
under_cap limit none = read []
under_cap limit (some body) = if ltb limit (length body) then too_large else read body

unfoldable pub read_body : ℤ → Incoming → Body
unfolding or_empty_body under_cap
read_body limit b =
    if not b.present || (b.content_length ==ℤ pos 0)
    then read []
    else if not (pos 0 <ℤ limit)
    then read (or_empty_body b.read_all)
    else if (pos 0 <ℤ b.content_length) && not (limit <ℤ b.content_length)
    then read (or_empty_body (b.read_full (pos_part b.content_length)))
    else under_cap (pos_part limit) (b.read_limited (one_past (pos_part limit)))
