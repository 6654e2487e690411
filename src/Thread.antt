-- ===== src/Thread.antt =====
-- src/thread/strip-fenced-json.ts: the removal of fenced JSON from a text, in one go and in chunks.
pub mod Scans
pub mod Removal
pub mod Streams
pub mod Parts
pub mod Batch
use autodev_harness.Common.{
  ℕ, zero, suc, ◌+◌, ◌-◌, Char, Bool, true, false, Option, none, some, List, [], ◌∷◌, ◌++◌, length,
  take, drop, if◌then◌else◌,
}
use autodev_harness.Util.Chars.{Text, chars, begins}

abbrev pub fence_open : Text
fence_open = chars "```json"

abbrev pub fence_close : Text
fence_close = chars "```"

-- `s.indexOf(p)` for a `p` that is not empty, where `none` is -1.
abbrev pub one_on : Option ℕ → Option ℕ
one_on none = none
one_on (some n) = some (suc n)

unfoldable pub index_of : Text → Text → Option ℕ
index_of p [] = none
index_of p (c ∷ s) = let later = index_of p s in if begins (c ∷ s) p then some 0 else one_on later

-- The private fields of `StreamingFenceStripper`.
pub record Stripper : Type 0 where
  pub buf : Text
  pub in_fence : Bool

-- The pair of what is emitted and the fields.
abbrev pub emitting : Text → Text × Stripper → Text × Stripper
emitting t (e, st) = (t ++ e, st)

abbrev pub safe : Text → Text → ℕ
safe mark buf = length buf - (length mark - 1)

-- The two halves of a round, at the position of the mark; `again` is the next round.
abbrev pub outside_step : (Stripper → Text × Stripper) → Text → Option ℕ → Text × Stripper
outside_step again buf none = (
  take (safe fence_open buf) buf,
  record { buf = drop (safe fence_open buf) buf; in_fence = false },
)
outside_step again buf (some begun) =
    emitting (take begun buf)
      (again (record { buf = drop (begun + length fence_open) buf; in_fence = true }))

abbrev pub inside_step : (Stripper → Text × Stripper) → Text → Option ℕ → Text × Stripper
inside_step again buf none = ([], record { buf = drop (safe fence_close buf) buf; in_fence = true })
inside_step again buf (some ended) =
    again (record { buf = drop (ended + length fence_close) buf; in_fence = false })

abbrev pub round : (Stripper → Text × Stripper) → Stripper → Text × Stripper
round again st =
    if st.in_fence
    then inside_step again st.buf (index_of fence_close st.buf)
    else outside_step again st.buf (index_of fence_open st.buf)

-- The loop of `push`.
unfoldable pub push_loop : ℕ → Stripper → Text × Stripper
push_loop zero st = ([], st)
push_loop (suc fuel) st = round (push_loop fuel) st

-- `push`; a round of the loop takes at least one character.
unfoldable pub push : Stripper → Text → Text × Stripper
push st chunk = push_loop (suc (length (st.buf ++ chunk))) (record st { buf = st.buf ++ chunk })

-- `end`
abbrev pub end : Stripper → Text
end st = if st.in_fence then [] else st.buf

-- All chunks, and the end.
unfoldable pub streamed : Stripper → List Text → Text
streamed st [] = end st
streamed st (chunk ∷ chunks) = let (out, next) = push st chunk in out ++ streamed next chunks

-- The text behind the first fence of a text without a fence that closes.
unfoldable pub before_open : Text → Text
before_open [] = []
before_open (c ∷ s) =
    let later = before_open s in if begins (c ∷ s) fence_open then [] else c ∷ later

-- A match of /```json[\s\S]*?```/, from the position of its first mark, and of its last; `again` is
-- the rest of the replacement.
abbrev pub cut_to_close : (Text → Text) → Text → ℕ → Option ℕ → Text
cut_to_close again text begun none = text
cut_to_close again text begun (some ended) =
    take begun text
    ++ again (drop (ended + length fence_close) (drop (begun + length fence_open) text))

abbrev pub cut_from_open : (Text → Text) → Text → Option ℕ → Text
cut_from_open again text none = text
cut_from_open again text (some begun) =
    cut_to_close again text begun (index_of fence_close (drop (begun + length fence_open) text))

-- `.replace(/```json[\s\S]*?```/g, "")`, on fuel for the matches.
unfoldable pub without_closed : ℕ → Text → Text
without_closed zero text = text
without_closed (suc fuel) text = cut_from_open (without_closed fuel) text (index_of fence_open text)

-- `stripFencedJson`
unfoldable pub strip_fenced_json : Text → Text
strip_fenced_json text = before_open (without_closed (length text) text)
