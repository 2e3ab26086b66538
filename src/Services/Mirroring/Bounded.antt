-- ===== src/Services/Mirroring/Bounded.antt =====
-- A download ends after its attempts, and what it returns is one whole file within the limit.
use akasha_ingestion.Base.{
  ℕ, zero, suc, ◌+◌, ◌*◌, ◌^◌, ◌≤◌, Bool, true, false, Option, none, some, List, [], ◌∷◌, ◌++◌,
  String, ◌≡◌, ◌≢◌, refl, sym, ap, ◌∙◌, ◌||◌, leb, nat_beq, arith, length, length-append,
  Bool-cases, inl, inr,
}
use akasha_ingestion.Storage.Memory.{Bytes}
use akasha_ingestion.Services.Mirroring.Defs.{
  Ending, finished, interrupted, Reply, no_connection, bad_status, body, unreachable, Outcome, ok,
  raised, MirrorSettings, over_limit, Progress, Received, all_of, too_large, Attempt, complete,
  final, again, add_chunk, received, read_all, reset, open_file, attempt_of, after_attempt,
  attempts_from, no_progress, with_digest, download_asset, is_zero,
}

-- What a download gives: a file within the limit with its own checksum and size, or an error of
-- the client.
abbrev pub IsDownload : Option ℕ → (Bytes → String) → Outcome (Bytes × String × ℕ) → Type 0
IsDownload limit sha256 (ok (file, checksum, size)) =
    (over_limit limit size ≡ false) × (checksum ≡ sha256 file) × (size ≡ length file)
IsDownload limit sha256 (raised e) = e ≢ unreachable

empty_fits : (limit : Option ℕ) → over_limit limit 0 ≡ false
empty_fits none = refl
empty_fits (some n) = ground arith

-- The laws of `hashlib`: `update` with nothing changes nothing, and two updates are one with both
-- texts.
module _ {H : Type 0} (new_hash : H) (feed : Bytes → H → H) (feed_nothing : (h : H) → feed [] h ≡ h)
    (feed_both : (a b : Bytes) (h : H) → feed (a ++ b) h ≡ feed b (feed a h)) where
  -- The digest and the size are those of the file.
  record Tracks (limit : Option ℕ) (pr : Progress H) : Type 0 where
    hashed : pr.digest ≡ feed pr.file new_hash
    sized : pr.size_bytes ≡ length pr.file
    fits : over_limit limit pr.size_bytes ≡ false

  abbrev OutcomeTracks : Option ℕ → Outcome (Progress H) → Type 0
  OutcomeTracks limit (ok pr) = Tracks limit pr
  OutcomeTracks limit (raised e) = e ≢ unreachable

  abbrev AttemptTracks : Option ℕ → Attempt H → Type 0
  AttemptTracks limit (complete pr) = Tracks limit pr
  AttemptTracks limit (final e pr) = e ≢ unreachable
  AttemptTracks limit (again e pr) = e ≢ unreachable

  abbrev ReceivedTracks : Option ℕ → Received H → Type 0
  ReceivedTracks limit (all_of pr) = Tracks limit pr
  ReceivedTracks limit (too_large pr) = Unit

  add_chunk-Tracks :
      (limit : Option ℕ) (chunk : Bytes) (pr : Progress H)
      → over_limit limit (pr.size_bytes + length chunk) ≡ false
      → Tracks limit pr
      → Tracks limit (add_chunk new_hash feed chunk pr)
  add_chunk-Tracks limit chunk pr within t = record {
    hashed = ap (feed chunk) t.hashed ∙ sym (feed_both pr.file chunk new_hash);
    sized = omega (arith, t.sized, length-append pr.file chunk);
    fits = within;
  }

  received-Tracks :
      (limit : Option ℕ) (pr : Progress H) (chunks : List Bytes)
      → Tracks limit pr
      → ReceivedTracks limit (received new_hash feed limit pr chunks)
  unfolding received
  received-Tracks limit pr [] t = t
  received-Tracks limit pr ([] ∷ chunks) t = received-Tracks limit pr chunks t
  received-Tracks limit pr ((b ∷ chunk) ∷ chunks) t =
      elim (Bool-cases (over_limit limit (pr.size_bytes + length (b ∷ chunk)))) [
        | inl over ↦ rw over tt
        | inr within ↦ rw within (
            received-Tracks limit (add_chunk new_hash feed (b ∷ chunk) pr) chunks
              (add_chunk-Tracks limit (b ∷ chunk) pr within t))
      ]

  read_all-Tracks :
      (limit : Option ℕ) (ending : Ending) (r : Received H)
      → ReceivedTracks limit r
      → AttemptTracks limit (read_all ending r)
  read_all-Tracks limit finished (too_large pr) t = λ e. cc e
  read_all-Tracks limit interrupted (too_large pr) t = λ e. cc e
  read_all-Tracks limit finished (all_of pr) t = t
  read_all-Tracks limit interrupted (all_of pr) t = λ e. cc e

  opened-Tracks :
      (limit : Option ℕ) (pr : Progress H)
      → Tracks limit (open_file new_hash feed (reset new_hash feed pr))
  opened-Tracks limit pr = record {
    hashed = sym (feed_nothing new_hash);
    sized = refl;
    fits = empty_fits limit;
  }

  attempt_of-Tracks :
      (limit : Option ℕ) (pr : Progress H) (r : Reply)
      → AttemptTracks limit (attempt_of new_hash feed limit (reset new_hash feed pr) r)
  attempt_of-Tracks limit pr no_connection = λ e. cc e
  attempt_of-Tracks limit pr (bad_status code) =
      elim (Bool-cases (nat_beq code 429 || leb 500 code)) [
        | inl passing ↦ rw passing (λ e. cc e)
        | inr lasting ↦ rw lasting (λ e. cc e)
      ]
  attempt_of-Tracks limit pr (body chunks ending) =
      let start = open_file new_hash feed (reset new_hash feed pr) in
      read_all-Tracks limit ending (received new_hash feed limit start chunks)
        (received-Tracks limit start chunks (opened-Tracks limit pr))

  module _ {W : Type 0} (stream : String → W → Reply × W) (sleep : ℕ → W → W)
      (settings : MirrorSettings) where
    after_attempt-Tracks :
        (last : Bool) (next : Progress H → W → Outcome (Progress H) × W) (a : Attempt H) (w : W)
        → AttemptTracks settings.max_bytes a
        → (last ≡ false
            → (pr : Progress H) (v : W) → OutcomeTracks settings.max_bytes (next pr v).0)
        → OutcomeTracks settings.max_bytes
            (after_attempt new_hash feed stream sleep settings last next a w).0
    after_attempt-Tracks last next (complete pr) w t more = t
    after_attempt-Tracks last next (final e pr) w t more = t
    after_attempt-Tracks true next (again e pr) w t more = t
    after_attempt-Tracks false next (again e pr) w t more = more refl pr w

    abbrev next_attempt : ℕ → ℕ → String → Progress H → W → Outcome (Progress H) × W
    next_attempt left attempt href pr v =
        attempts_from new_hash feed stream sleep settings left (suc attempt) href pr
          (sleep (settings.retry_backoff * 2 ^ attempt) v)

    attempts_from-Tracks :
        (left attempt : ℕ) (href : String) (pr : Progress H) (w : W)
        → OutcomeTracks settings.max_bytes
            (attempts_from new_hash feed stream sleep settings (suc left) attempt href pr w).0
    unfolding attempts_from
    attempts_from-Tracks zero attempt href pr w =
        after_attempt-Tracks true (next_attempt zero attempt href)
          (attempt_of new_hash feed settings.max_bytes (reset new_hash feed pr) (stream href w).0)
          (stream href w).1 (attempt_of-Tracks settings.max_bytes pr (stream href w).0)
          (λ e. ground arith)
    attempts_from-Tracks (suc left) attempt href pr w =
        after_attempt-Tracks false (next_attempt (suc left) attempt href)
          (attempt_of new_hash feed settings.max_bytes (reset new_hash feed pr) (stream href w).0)
          (stream href w).1 (attempt_of-Tracks settings.max_bytes pr (stream href w).0)
          (λ e q v.
            attempts_from-Tracks left (suc attempt) href q
              (sleep (settings.retry_backoff * 2 ^ attempt) v))

    some_attempts-Tracks :
        (left : ℕ) (href : String) (pr : Progress H) (w : W)
        → 1 ≤ left
        → OutcomeTracks settings.max_bytes
            (attempts_from new_hash feed stream sleep settings left 0 href pr w).0
    some_attempts-Tracks zero href pr w h = ground (arith, h)
    some_attempts-Tracks (suc left) href pr w h = attempts_from-Tracks left 0 href pr w

    with_digest-IsDownload :
        (hexdigest : H → String) (o : Outcome (Progress H)) (w : W)
        → OutcomeTracks settings.max_bytes o
        → IsDownload settings.max_bytes
            (λ file. hexdigest (feed file new_hash))
            (with_digest new_hash feed stream sleep settings hexdigest (o, w)).0
    with_digest-IsDownload hexdigest (ok pr) w t = (t.fits, ap hexdigest t.hashed, t.sized)
    with_digest-IsDownload hexdigest (raised e) w t = t

    with_digest-state :
        (hexdigest : H → String) (o : Outcome (Progress H)) (w : W)
        → (with_digest new_hash feed stream sleep settings hexdigest (o, w)).1 ≡ w
    with_digest-state hexdigest (ok pr) w = refl
    with_digest-state hexdigest (raised e) w = refl

    module _ (asked : W → ℕ)
        (asks : (href : String) (w : W) → asked (stream href w).1 ≡ suc (asked w))
        (sleeps : (n : ℕ) (w : W) → asked (sleep n w) ≡ asked w) where
      after_attempt-asked :
          (last : Bool) (next : Progress H → W → Outcome (Progress H) × W) (a : Attempt H) (w : W)
          (bound : ℕ)
          → asked w ≤ bound
          → (last ≡ false → (pr : Progress H) → asked (next pr w).1 ≤ bound)
          → asked (after_attempt new_hash feed stream sleep settings last next a w).1 ≤ bound
      after_attempt-asked last next (complete pr) w bound now more = now
      after_attempt-asked last next (final e pr) w bound now more = now
      after_attempt-asked true next (again e pr) w bound now more = now
      after_attempt-asked false next (again e pr) w bound now more = more refl pr

      attempts_from-asked :
          (left attempt : ℕ) (href : String) (pr : Progress H) (w : W)
          → asked (attempts_from new_hash feed stream sleep settings left attempt href pr w).1
            ≤ asked w + left
      unfolding attempts_from
      attempts_from-asked zero attempt href pr w = omega arith
      attempts_from-asked (suc left) attempt href pr w =
          let v = (stream href w).1 in
          let slept = sleep (settings.retry_backoff * 2 ^ attempt) v in
          after_attempt-asked (is_zero left) (next_attempt left attempt href)
            (attempt_of new_hash feed settings.max_bytes (reset new_hash feed pr) (stream href w).0)
            v (asked w + suc left) (omega (arith, asks href w))
            (λ e q. omega (
              arith,
              attempts_from-asked left (suc attempt) href q slept,
              asks href w,
              sleeps (settings.retry_backoff * 2 ^ attempt) v,
            ))

      -- If updates of a hash add up and the client counts its requests, then with at least one
      -- attempt configured a download ends within that many requests, and it never reaches the
      -- assertion behind the loop. When it succeeds, the size is the length of the file and within
      -- the byte limit, and the checksum, which was updated chunk by chunk, is that of the whole
      -- file, whatever earlier attempts had read into the hash, the size and the file.
      pub download_asset-IsBounded :
          (hexdigest : H → String) (href : String) (w : W)
          → 1 ≤ settings.retry_attempts
          → IsDownload settings.max_bytes
              (λ file. hexdigest (feed file new_hash))
              (download_asset new_hash feed stream sleep settings hexdigest href w).0
            × (asked (download_asset new_hash feed stream sleep settings hexdigest href w).1
                ≤ asked w + settings.retry_attempts)
      unfolding download_asset
      download_asset-IsBounded hexdigest href w h =
          let none_yet = no_progress new_hash feed stream sleep settings in
          let r =
            attempts_from new_hash feed stream sleep settings settings.retry_attempts 0 href
              none_yet w in
          (
            with_digest-IsDownload hexdigest r.0 r.1
                (some_attempts-Tracks settings.retry_attempts href none_yet w h),
            rw (with_digest-state hexdigest r.0 r.1)
                (attempts_from-asked settings.retry_attempts 0 href none_yet w),
          )
