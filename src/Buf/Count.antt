-- ===== src/Buf/Count.antt =====
-- The counter of a buffer: it is freed by the release that no retain is left for.
use nson.Buf.{NsonBuf, buf_retain, buf_release, buf_new}
use nson.Prelude.{ℕ, zero, suc, ◌+◌, ◌-◌, ◌^◌, ◌<◌, ◌≡◌, ◌∙◌, Option, none, some, arith}

unfoldable pub retain_times : ℕ → NsonBuf → NsonBuf
retain_times zero buf = buf
retain_times (suc n) buf = retain_times n (buf_retain buf)

abbrev pub release_next : Option NsonBuf → Option NsonBuf
release_next none = none
release_next (some buf) = buf_release buf

unfoldable pub release_times : ℕ → NsonBuf → Option NsonBuf
release_times zero buf = some buf
release_times (suc n) buf = release_next (release_times n buf)

retain_times_count :
    (n : ℕ) (buf : NsonBuf)
    → buf.count + n < 2 ^ 32
    → retain_times n buf ≡ record buf { count = buf.count + n }
unfolding retain_times buf_retain
retain_times_count zero buf h = ground arith
retain_times_count (suc n) buf h =
    retain_times_count n (buf_retain buf) (omega arith) ∙ ground arith

release_times_count :
    (n : ℕ) (buf : NsonBuf)
    → n < buf.count
    → buf.count < 2 ^ 32
    → release_times n buf ≡ some (record buf { count = buf.count - n })
unfolding release_times buf_release
release_times_count zero buf h fits = ground arith
release_times_count (suc n) buf h fits =
    rw (release_times_count n buf (omega arith) fits) (ground arith)

buf_new_count : (siz : ℕ) (buf : NsonBuf) → buf_new siz ≡ some buf → buf.count ≡ 1
unfolding buf_new buf_retain
buf_new_count siz buf h = ground arith

-- A new buffer that was retained `n` times is alive after `n` releases, with the counter and the
-- contents that it began with, and is freed by the next release.
pub release_times-retain_times :
    (siz n : ℕ) (buf : NsonBuf)
    → buf_new siz ≡ some buf
    → n + 1 < 2 ^ 32
    → (release_times n (retain_times n buf) ≡ some buf)
      × (release_times (suc n) (retain_times n buf) ≡ none)
release_times-retain_times siz n buf new fits =
    let one = buf_new_count siz buf new in
    let kept = retain_times_count n buf (omega arith) in
    let released =
      release_times_count n (record buf { count = buf.count + n }) (omega arith) (omega arith) in
    rw kept
      (released ∙ ground arith, unfold release_times buf_release in rw released (ground arith))
