-- ===== src/WebSocket/Compact.antt =====
-- What ws_compact_json of app/ws_shim.c leaves of a message: no blank outside its strings.
use whitenoise_linux.Base.{
  ℕ, [], ◌∷◌, Bytes, Bool, true, false, ◌==◌, if◌then◌else◌, ◌≡◌, ◌≢◌, refl, arith,
}
use whitenoise_linux.WebSocket.Query.{dropped, next_quoted, next_escaped, compact, ws_compact_json}

-- Where a byte of a JSON text stands: outside its strings, inside one, or behind a backslash in one.
pub data Place : Type 0 where
  outside inside behind_backslash : Place

-- The place of the next byte: 34 is the quote and 92 the backslash.
abbrev pub next_place : Place → ℕ → Place
next_place outside c = if c == 34 then inside else outside
next_place inside c = if c == 92 then behind_backslash else if c == 34 then outside else inside
next_place behind_backslash c = inside

-- A space, a tab, a new line or a carriage return, where it may stand.
abbrev pub MayStand : Place → ℕ → Type 0
MayStand outside c = (c ≢ 32) × (c ≢ 9) × (c ≢ 10) × (c ≢ 13)
MayStand inside c = Unit
MayStand behind_backslash c = Unit

abbrev pub IsCompactFrom : Place → Bytes → Type 0
IsCompactFrom p [] = Unit
IsCompactFrom p (c ∷ m) = MayStand p c × IsCompactFrom (next_place p c) m

abbrev pub IsCompact : Bytes → Type 0
IsCompact m = IsCompactFrom outside m

-- The variables of the loop for a place.
abbrev quoted_at : Place → Bool
quoted_at outside = false
quoted_at inside = true
quoted_at behind_backslash = true

abbrev escaped_at : Place → Bool
escaped_at outside = false
escaped_at inside = false
escaped_at behind_backslash = true

next_quoted_at :
    (p : Place) (c : ℕ) → next_quoted (quoted_at p) (escaped_at p) c ≡ quoted_at (next_place p c)
next_quoted_at outside c = ground arith
next_quoted_at inside c = ground arith
next_quoted_at behind_backslash c = refl

next_escaped_at :
    (p : Place) (c : ℕ) → next_escaped (quoted_at p) (escaped_at p) c ≡ escaped_at (next_place p c)
next_escaped_at outside c = ground arith
next_escaped_at inside c = ground arith
next_escaped_at behind_backslash c = refl

kept_MayStand : (p : Place) (c : ℕ) → dropped (quoted_at p) c ≡ false → MayStand p c
kept_MayStand outside c e = (
  (λ k. ground (arith, e, k)),
  (λ k. ground (arith, e, k)),
  (λ k. ground (arith, e, k)),
  (λ k. ground (arith, e, k)),
)
kept_MayStand inside c e = tt
kept_MayStand behind_backslash c e = tt

compact-IsCompact :
    (p : Place) (m : Bytes) → IsCompactFrom p (compact (quoted_at p) (escaped_at p) m)
unfolding compact
compact-IsCompact p [] = tt
compact-IsCompact p (c ∷ m) =
    by_test (dropped (quoted_at p) c) refl (compact-IsCompact p m)
      (compact-IsCompact (next_place p c) m)
  where
    by_test :
        (skip : Bool)
        → dropped (quoted_at p) c ≡ skip
        → IsCompactFrom p (compact (quoted_at p) (escaped_at p) m)
        → IsCompactFrom
            (next_place p c)
            (compact (quoted_at (next_place p c)) (escaped_at (next_place p c)) m)
        → (let rest =
              compact
                (if skip then quoted_at p else next_quoted (quoted_at p) (escaped_at p) c)
                (if skip then escaped_at p else next_escaped (quoted_at p) (escaped_at p) c)
                m in
            IsCompactFrom p (if skip then rest else c ∷ rest))
    by_test true e same next = same
    by_test false e same next =
        (kept_MayStand p c e, rw (next_quoted_at p c, next_escaped_at p c) next)

pub ws_compact_json-IsCompact : (m : Bytes) → IsCompact (ws_compact_json m)
unfolding ws_compact_json
ws_compact_json-IsCompact m = compact-IsCompact outside m
