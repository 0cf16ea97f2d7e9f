-- ===== src/TaskStore/Tailing.antt =====
-- What `tail` shows of the streams of a task.
use native.Mathlib.Decide.{dec_lt}
use enhanced_ssh.Prelude.{
  ℕ, ◌-◌, ◌≤◌, max, Bool, not, ◌&&◌, String, List, Option, ◌≡◌, refl, ◌∙◌, sym, subst, ap, ap₂,
  arith, false, true, ◌⊎◌, inl, inr, ◌<◌, leb, le→leb, length,
}
use enhanced_ssh.Result.{ok, ok-injective}
use enhanced_ssh.RollingLog.{RollingLog, Decoder, Chunk, max_safe_integer, read}
use enhanced_ssh.RollingLog.History.{log_of}
use enhanced_ssh.RollingLog.Reading.{Shows, read-Shows, read_moves}
use enhanced_ssh.TaskStore.Types.{InternalTask, is_running}
use enhanced_ssh.TaskStore.Store.{TaskStore, require_task, require_positive_integer}
use enhanced_ssh.TaskStore.Cursor.{CursorCodec, encode_cursor}
use enhanced_ssh.TaskStore.Client.{
  TailStream, TaskTailResult, tail_stream, offsets_of, tail_result, tail_of, tail_found,
  tail_checked, tail,
}

-- A log holds the last bytes of a stream that has reached a safe offset.
pub record Holds (log : RollingLog) (history : List ℕ) (reached : ℕ) : Type 0 where
  pub limit : ℕ
  pub log_is : log ≡ log_of limit history
  pub known : reached ≤ length history
  pub safe : length history ≤ max_safe_integer

-- What is shown of a stream of which `offset` bytes were seen: the chunk that starts right there, or
-- where the log begins when bytes behind `offset` were rolled out, and nothing else is skipped. At the
-- end of the task some of what is left is shown, as long as anything is left.
pub record Tailed (decoder : Decoder) (log : RollingLog) (history : List ℕ) (offset : ℕ)
    (terminal : Bool) (stream : TailStream) (next : ℕ) : Type 0 where
  pub chunk : Chunk
  pub stream_is : stream ≡ tail_stream chunk (length history)
  pub shows : Shows decoder history offset (max offset log.start_offset) chunk
  pub next_is : chunk.next_offset ≡ next
  pub moves :
      (terminal ≡ false) ⊎ (length history ≤ max offset log.start_offset) ⊎ (0 < chunk.bytes_read)

read-moves :
    (decoder : Decoder) (log_limit : ℕ) (history : List ℕ) (offset limit : ℕ) (terminal : Bool)
    (chunk : Chunk)
    → 1 ≤ limit
    → offset ≤ max_safe_integer
    → offset ≤ length history
    → read decoder (log_of log_limit history) offset limit terminal ≡ ok chunk
    → (terminal ≡ false)
      ⊎ (length history ≤ max offset (length history - log_limit))
      ⊎ (0 < chunk.bytes_read)
read-moves decoder log_limit history offset limit false chunk positive safe known is_read = inl refl
read-moves decoder log_limit history offset limit true chunk positive safe known is_read =
    elim (dec_lt (max offset (length history - log_limit)) (length history)) [
      | no through ↦ inr (inl (omega arith))
      | yes more ↦
          let (other, is_other, some) =
            read_moves decoder log_limit history offset limit true safe known positive (inl refl)
              more in
          inr (inr (subst (λ c. 0 < c.bytes_read) (ok-injective (sym is_other ∙ is_read)) some))
    ]

read-Tailed :
    (decoder : Decoder) (log : RollingLog) (history : List ℕ) (offset limit : ℕ) (terminal : Bool)
    → 1 ≤ limit
    → Holds log history offset
    → (chunk : Chunk) × (read decoder log offset limit terminal ≡ ok chunk)
      × Tailed decoder log history offset terminal
          (tail_stream chunk log.total_bytes)
          chunk.next_offset
      × (log.total_bytes ≡ length history)
read-Tailed decoder log history offset limit terminal positive h =
    let within : offset ≤ max_safe_integer = omega (arith, h.known, h.safe) in
    let (chunk, is_read, shows) =
      read-Shows decoder h.limit history offset limit terminal within h.known in
    let begins : log.start_offset ≡ length history - h.limit = ap (λ l. l.start_offset) h.log_is in
    let total : log.total_bytes ≡ length history = ap (λ l. l.total_bytes) h.log_is in
    (
      chunk,
      ap (λ l. read decoder l offset limit terminal) h.log_is ∙ is_read,
      record {
        chunk = chunk;
        stream_is = ap (tail_stream chunk) total;
        shows = subst (λ b. Shows decoder history offset (max offset b) chunk) (sym begins) shows;
        next_is = refl;
        moves =
            subst
              (λ b. (terminal ≡ false) ⊎ (length history ≤ max offset b) ⊎ (0 < chunk.bytes_read))
              (sym begins)
              (read-moves decoder h.limit history offset limit terminal chunk positive within
                h.known is_read);
      },
      total,
    )

positive_limit :
    (limit : ℕ)
    → 1 ≤ limit
    → limit ≤ max_safe_integer
    → require_positive_integer limit "limit" ≡ ok tt
positive_limit limit positive safe =
    rw (le→leb limit max_safe_integer safe, le→leb 1 limit positive) refl

module _ {R : Type 0} (decoder : Decoder) (codec : CursorCodec) where
  -- Both streams from the offsets of the cursor on, the end when a task that has finished has shown
  -- all of both, and the cursor to go on with.
  pub record TailShows (task : InternalTask R) (id : String) (out_history err_history : List ℕ)
      (o e : ℕ) (result : TaskTailResult) : Type 0 where
    pub next_o : ℕ
    pub next_e : ℕ
    pub out_shown :
        Tailed decoder task.out_log out_history o
          (not (is_running task.state))
          result.stdout_tail
          next_o
    pub err_shown :
        Tailed decoder task.err_log err_history e
          (not (is_running task.state))
          result.stderr_tail
          next_e
    pub cursor_is : result.next_cursor ≡ encode_cursor codec id next_o next_e
    pub state_is : result.state ≡ task.state
    pub ended_is : result.eof ≡ (
        not (is_running task.state)
        && leb (length out_history) next_o
        && leb (length err_history) next_e)

  tail_of-TailShows :
      (task : InternalTask R) (id : String) (cursor : Option String) (limit o e : ℕ)
      (out_history err_history : List ℕ)
      → 1 ≤ limit
      → offsets_of codec cursor id ≡ ok (o, e)
      → Holds task.out_log out_history o
      → Holds task.err_log err_history e
      → (result : TaskTailResult) × (tail_of decoder codec task id cursor limit ≡ ok result)
        × TailShows task id out_history err_history o e result
  unfolding tail_of
  tail_of-TailShows task id cursor limit o e out_history err_history positive offsets out_held
        err_held =
      let terminal = not (is_running task.state) in
      let (out, out_read, out_tailed, out_total) =
        read-Tailed decoder task.out_log out_history o limit terminal positive out_held in
      let (error, err_read, err_tailed, err_total) =
        read-Tailed decoder task.err_log err_history e limit terminal positive err_held in
      (
        tail_result codec task id out error,
        rw (offsets, out_read, err_read) refl,
        record {
          next_o = out.next_offset;
          next_e = error.next_offset;
          out_shown = out_tailed;
          err_shown = err_tailed;
          cursor_is = refl;
          state_is = refl;
          ended_is =
              ap₂ (λ a b. terminal && leb a out.next_offset && leb b error.next_offset) out_total
                err_total;
        },
      )

  -- For a task that is found, a limit that is a positive safe integer and a cursor whose offsets both
  -- streams have reached, tail succeeds: it shows each stream from its offset on, or from where its log
  -- begins when that is later; when the task has finished, at least a byte of each stream that is not
  -- through; it tells the state of the task, gives a cursor for the offsets behind what it shows, and
  -- says that the end is reached exactly when the task has finished and both streams are through.
  pub tail-TailShows :
      (store cleaned : TaskStore R) (now : ℕ) (task : InternalTask R) (id : String)
      (cursor : Option String) (limit o e : ℕ) (out_history err_history : List ℕ)
      → 1 ≤ limit
      → limit ≤ max_safe_integer
      → require_task store now id ≡ (ok task, cleaned)
      → offsets_of codec cursor id ≡ ok (o, e)
      → Holds task.out_log out_history o
      → Holds task.err_log err_history e
      → (result : TaskTailResult) × (tail decoder codec store now id cursor limit
          ≡ (ok result, cleaned))
        × TailShows task id out_history err_history o e result
  unfolding tail tail_checked tail_found
  tail-TailShows store cleaned now task id cursor limit o e out_history err_history positive safe
        found offsets out_held err_held =
      let (result, is_tail, shows) =
        tail_of-TailShows task id cursor limit o e out_history err_history positive offsets out_held
          err_held in
      (
        result,
        ap
              (λ c.
                tail_checked c store
                  (tail_found decoder codec id cursor limit (require_task store now id)))
              (positive_limit limit positive safe)
            ∙ ap (tail_found decoder codec id cursor limit) found
            ∙ ap (λ r. (r, cleaned)) is_tail,
        shows,
      )
