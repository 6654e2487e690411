-- ===== src/Tests/Threads.antt =====
-- Fenced JSON in a thread, streamed in chunks.
use autodev_harness.Common.{none, List, [], ◌∷◌, ◌≡◌, refl}
use autodev_harness.Util.Chars.{Text, chars}
use autodev_harness.Thread.{
  fence_open, index_of, streamed, push, push_loop, strip_fenced_json, without_closed, before_open,
}
use autodev_harness.Thread.Streams.{fresh, concat}
use autodev_harness.Thread.Batch.{strip_fenced_json-streamed}

abbrev chunks : List Text
chunks = chars "Plan: `" ∷ chars "``js" ∷ chars "on {}``" ∷ chars "` done ```json [" ∷ []

shown : streamed fresh chunks ≡ chars "Plan:  done "
unfolding streamed push push_loop index_of
shown = refl

unmarked : index_of fence_open (streamed fresh chunks) ≡ none
unfolding streamed push push_loop index_of
unmarked = refl

strip_fenced_json-streamed_example : strip_fenced_json (concat chunks) ≡ streamed fresh chunks
strip_fenced_json-streamed_example = strip_fenced_json-streamed chunks unmarked

-- Two parts of the prose that make up a mark: the removal in one go cuts what is streamed.
abbrev seam : Text
seam = chars "`````json x````json rest"

strip_fenced_json-seam : strip_fenced_json seam ≡ []
unfolding strip_fenced_json without_closed before_open index_of
strip_fenced_json-seam = refl

streamed-seam : streamed fresh (seam ∷ []) ≡ chars "```json rest"
unfolding streamed push push_loop index_of
streamed-seam = refl
