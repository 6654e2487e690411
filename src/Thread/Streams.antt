-- ===== src/Thread/Streams.antt =====
-- What is streamed is the text without its fences, however it was cut into chunks.
use mathlib.Core.List.{append_assoc, append-nil}
use autodev_harness.Common.{
  ℕ, zero, suc, ◌+◌, ◌≤◌, ◌<◌, Bool, true, false, Option, none, some, List, [], ◌∷◌, ◌++◌, ◌≡◌,
  refl, ap, ◌∙◌, sym, length, take, drop, if◌then◌else◌, arith, length-drop,
}
use autodev_harness.Util.Chars.{Text}
use autodev_harness.Thread.{
  fence_open, fence_close, index_of, Stripper, safe, outside_step, inside_step, round, push_loop,
  push, end, streamed,
}
use autodev_harness.Thread.Scans.{index_of-some, index_of-none, index_of-length}
use autodev_harness.Thread.Removal.{
  removed, in_prose, inside_fence, prose_hit, prose_miss, fence_hit, fence_miss,
  removed_prose_short, removed_fence_short,
}

-- What is still to be streamed when the rest of the text is `t`.
abbrev due : Stripper → Text → Text
due st t =
    if st.in_fence
    then removed (inside_fence 0) (st.buf ++ t)
    else removed (in_prose 0) (st.buf ++ t)

-- Too little is kept for a mark.
abbrev IsShort : Stripper → Type 0
IsShort st = length st.buf ≤ (if st.in_fence then 2 else 6)

-- What a part of the loop emits and keeps is what was due.
abbrev Emits : Text → Text → Text × Stripper → Type 0
Emits before t (out, st) = before ≡ out ++ due st t

module _ (again : Stripper → Text × Stripper) (buf t : Text)
    (rest : (st : Stripper) → length st.buf < length buf → Emits (due st t) t (again st)) where
  outside-Emits :
      (o : Option ℕ)
      → index_of fence_open buf ≡ o
      → Emits (removed (in_prose 0) (buf ++ t)) t (outside_step again buf o)
  outside-Emits none e =
      index_of-none fence_open true (removed (in_prose 0)) (removed (inside_fence 0)) prose_hit
        prose_miss buf t (safe fence_open buf) e refl
  outside-Emits (some k) e =
      let l = index_of-length fence_open buf k e in
      let size = length-drop (k + length fence_open) buf in
      index_of-some fence_open true (removed (in_prose 0)) (removed (inside_fence 0)) prose_hit
        prose_miss buf t k e
      ∙ (ap (λ x. take k buf ++ x)
            (rest (record { buf = drop (k + length fence_open) buf; in_fence = true })
              (omega arith))
          ∙ sym (
              append_assoc (take k buf)
                (again (record { buf = drop (k + length fence_open) buf; in_fence = true })).0
                (due (again (record { buf = drop (k + length fence_open) buf; in_fence = true })).1
                  t)))

  inside-Emits :
      (o : Option ℕ)
      → index_of fence_close buf ≡ o
      → Emits (removed (inside_fence 0) (buf ++ t)) t (inside_step again buf o)
  inside-Emits none e =
      index_of-none fence_close false (removed (inside_fence 0)) (removed (in_prose 0)) fence_hit
        fence_miss buf t (safe fence_close buf) e refl
  inside-Emits (some k) e =
      let l = index_of-length fence_close buf k e in
      let size = length-drop (k + length fence_close) buf in
      index_of-some fence_close false (removed (inside_fence 0)) (removed (in_prose 0)) fence_hit
        fence_miss buf t k e
      ∙ rest (record { buf = drop (k + length fence_close) buf; in_fence = false }) (omega arith)

  round-Emits :
      (b : Bool)
      → Emits
          (due (record { buf = buf; in_fence = b }) t)
          t
          (round again (record { buf = buf; in_fence = b }))
  round-Emits true = inside-Emits (index_of fence_close buf) refl
  round-Emits false = outside-Emits (index_of fence_open buf) refl

push_loop-Emits :
    (fuel : ℕ) (st : Stripper) (t : Text)
    → length st.buf < fuel
    → Emits (due st t) t (push_loop fuel st)
unfolding push_loop
push_loop-Emits zero st t l = absurd (omega arith)
push_loop-Emits (suc fuel) st t l =
    round-Emits (push_loop fuel) st.buf t (λ v k. push_loop-Emits fuel v t (omega arith))
      st.in_fence

-- What is kept is too short for a mark.
module _ (again : Stripper → Text × Stripper) (buf : Text)
    (rest : (st : Stripper) → length st.buf < length buf → IsShort (again st).1) where
  outside-IsShort :
      (o : Option ℕ) → index_of fence_open buf ≡ o → IsShort (outside_step again buf o).1
  outside-IsShort none e = let size = length-drop (safe fence_open buf) buf in omega arith
  outside-IsShort (some k) e =
      let l = index_of-length fence_open buf k e in
      let size = length-drop (k + length fence_open) buf in
      rest (record { buf = drop (k + length fence_open) buf; in_fence = true }) (omega arith)

  inside-IsShort :
      (o : Option ℕ) → index_of fence_close buf ≡ o → IsShort (inside_step again buf o).1
  inside-IsShort none e = let size = length-drop (safe fence_close buf) buf in omega arith
  inside-IsShort (some k) e =
      let l = index_of-length fence_close buf k e in
      let size = length-drop (k + length fence_close) buf in
      rest (record { buf = drop (k + length fence_close) buf; in_fence = false }) (omega arith)

  round-IsShort : (b : Bool) → IsShort (round again (record { buf = buf; in_fence = b })).1
  round-IsShort true = inside-IsShort (index_of fence_close buf) refl
  round-IsShort false = outside-IsShort (index_of fence_open buf) refl

push_loop-IsShort :
    (fuel : ℕ) (st : Stripper) → length st.buf < fuel → IsShort (push_loop fuel st).1
unfolding push_loop
push_loop-IsShort zero st l = absurd (omega arith)
push_loop-IsShort (suc fuel) st l =
    round-IsShort (push_loop fuel) st.buf (λ v k. push_loop-IsShort fuel v (omega arith))
      st.in_fence

abbrev pub concat : List Text → Text
concat [] = []
concat (chunk ∷ chunks) = chunk ++ concat chunks

end_of :
    (b : Bool) (buf : Text)
    → IsShort (record { buf = buf; in_fence = b })
    → end (record { buf = buf; in_fence = b }) ≡ due (record { buf = buf; in_fence = b }) []
end_of true buf l =
    sym (removed_fence_short buf l) ∙ ap (removed (inside_fence 0)) (sym (append-nil buf))
end_of false buf l =
    sym (removed_prose_short buf l) ∙ ap (removed (in_prose 0)) (sym (append-nil buf))

due_chunk_at :
    (b : Bool) (buf chunk t : Text)
    → due (record { buf = buf; in_fence = b }) (chunk ++ t)
      ≡ due (record { buf = buf ++ chunk; in_fence = b }) t
due_chunk_at true buf chunk t = ap (removed (inside_fence 0)) (sym (append_assoc buf chunk t))
due_chunk_at false buf chunk t = ap (removed (in_prose 0)) (sym (append_assoc buf chunk t))

end-due : (st : Stripper) → IsShort st → end st ≡ due st []
end-due st l = end_of st.in_fence st.buf l

due_chunk :
    (st : Stripper) (chunk t : Text)
    → due st (chunk ++ t) ≡ due (record st { buf = st.buf ++ chunk }) t
due_chunk st chunk t = due_chunk_at st.in_fence st.buf chunk t

push-Emits :
    (st : Stripper) (chunk t : Text)
    → due st (chunk ++ t) ≡ (push st chunk).0 ++ due (push st chunk).1 t
unfolding push
push-Emits st chunk t =
    due_chunk st chunk t
    ∙ push_loop-Emits (suc (length (st.buf ++ chunk))) (record st { buf = st.buf ++ chunk }) t
        (omega arith)

push-IsShort : (st : Stripper) (chunk : Text) → IsShort (push st chunk).1
unfolding push
push-IsShort st chunk =
    push_loop-IsShort (suc (length (st.buf ++ chunk))) (record st { buf = st.buf ++ chunk })
      (omega arith)

streamed-due :
    (chunks : List Text) (st : Stripper) → IsShort st → streamed st chunks ≡ due st (concat chunks)
unfolding streamed
streamed-due [] st l = end-due st l
streamed-due (chunk ∷ chunks) st l =
    ap (λ x. (push st chunk).0 ++ x) (streamed-due chunks (push st chunk).1 (push-IsShort st chunk))
    ∙ sym (push-Emits st chunk (concat chunks))

-- A new stripper.
abbrev pub fresh : Stripper
fresh = record { buf = []; in_fence = false }

pub streamed-removed :
    (chunks : List Text) → streamed fresh chunks ≡ removed (in_prose 0) (concat chunks)
streamed-removed chunks = streamed-due chunks fresh (omega arith)
