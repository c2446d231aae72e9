-- ===== src/Desktop/Lines.antt =====
-- gui.py: reading the output of the process in chunks.
use matf_master_vpn.Prelude.{
  ℕ, ◌≡◌, refl, sym, ap, ◌∙◌, false, List, [], ◌∷◌, ◌++◌, append_assoc, append-nil, ◌==◌, arith,
  Option, none, some, Bool-cases, inl, inr,
}
use matf_master_vpn.Json.{Json, object}
use matf_master_vpn.Desktop.Window.{EndpointState, Entry}
use matf_master_vpn.Texts.{Text, strip, split_lines, front_lines, last_line, to_first}
use matf_master_vpn.Desktop.Process.{
  Desktop, Channel, standard_error, standard_output, buffer_of, with_buffer, consume_loaded,
  consume_stripped, consume_log_line, consume_lines, read_channel, set_state, set_named, report,
}

split_lines-cons : (buffer : Text) → (l : Text) × (ls : List Text) × (split_lines buffer ≡ l ∷ ls)
unfolding split_lines
split_lines-cons [] = ([], [], refl)
split_lines-cons (c ∷ buffer) =
    let (l, ls, e) = split_lines-cons buffer in
    elim (Bool-cases (c == 10)) [
      | inl ends ↦ ([], split_lines buffer, rw ends refl)
      | inr goes_on ↦ (c ∷ l, ls, rw (goes_on, e) refl)
    ]

first-append :
    (c : ℕ) (l : Text) (ls : List Text) (more : Text)
    → (c == 10) ≡ false
    → to_first c (front_lines (l ∷ ls) ++ split_lines (last_line (l ∷ ls) ++ more))
      ≡ front_lines ((c ∷ l) ∷ ls) ++ split_lines (last_line ((c ∷ l) ∷ ls) ++ more)
unfolding split_lines front_lines last_line
first-append c l [] more goes_on = rw goes_on refl
first-append c l (m ∷ ms) more goes_on = refl

-- More text changes the last line only.
split_lines-append :
    (buffer more : Text)
    → split_lines (buffer ++ more)
      ≡ front_lines (split_lines buffer) ++ split_lines (last_line (split_lines buffer) ++ more)
unfolding split_lines front_lines last_line
split_lines-append [] more = refl
split_lines-append (c ∷ buffer) more =
    let (l, ls, e) = split_lines-cons buffer in
    let ih = split_lines-append buffer more in
    elim (Bool-cases (c == 10)) [
      | inl ends ↦ rw (ends, ih, e) refl
      | inr goes_on ↦ rw (goes_on, ih, e) (first-append c l ls more goes_on)
    ]

front_lines-append :
    (xs : List Text) (l : Text) (ls : List Text)
    → front_lines (xs ++ l ∷ ls) ≡ xs ++ front_lines (l ∷ ls)
unfolding front_lines
front_lines-append [] l ls = refl
front_lines-append (x ∷ []) l ls = refl
front_lines-append (x ∷ y ∷ xs) l ls = ap (◌∷◌ x) (front_lines-append (y ∷ xs) l ls)

last_line-append :
    (xs : List Text) (l : Text) (ls : List Text) → last_line (xs ++ l ∷ ls) ≡ last_line (l ∷ ls)
unfolding last_line
last_line-append [] l ls = refl
last_line-append (x ∷ []) l ls = refl
last_line-append (x ∷ y ∷ xs) l ls = last_line-append (y ∷ xs) l ls

front-append :
    (buffer more : Text)
    → front_lines (split_lines (buffer ++ more))
      ≡ front_lines (split_lines buffer)
        ++ front_lines (split_lines (last_line (split_lines buffer) ++ more))
front-append buffer more =
    let (l, ls, e) = split_lines-cons (last_line (split_lines buffer) ++ more) in
    ap front_lines (split_lines-append buffer more)
    ∙ rw e (front_lines-append (front_lines (split_lines buffer)) l ls)

last-append :
    (buffer more : Text)
    → last_line (split_lines (buffer ++ more))
      ≡ last_line (split_lines (last_line (split_lines buffer) ++ more))
last-append buffer more =
    let (l, ls, e) = split_lines-cons (last_line (split_lines buffer) ++ more) in
    ap last_line (split_lines-append buffer more)
    ∙ rw e (last_line-append (front_lines (split_lines buffer)) l ls)

set_state-with_buffer :
    (channel : Channel) (state : EndpointState) (b : Text) (d : Desktop)
    → set_state state (with_buffer channel b d) ≡ with_buffer channel b (set_state state d)
unfolding set_state
set_state-with_buffer standard_error state b d = ground arith
set_state-with_buffer standard_output state b d = ground arith

report-with_buffer :
    (channel : Channel) (entry : Entry) (b : Text) (d : Desktop)
    → report entry (with_buffer channel b d) ≡ with_buffer channel b (report entry d)
unfolding report
report-with_buffer standard_error entry b d = refl
report-with_buffer standard_output entry b d = refl

set_named-with_buffer :
    (channel : Channel) (named : Option EndpointState) (b : Text) (d : Desktop)
    → set_named named (with_buffer channel b d) ≡ with_buffer channel b (set_named named d)
set_named-with_buffer channel none b d = refl
set_named-with_buffer channel (some state) b d = set_state-with_buffer channel state b d

consume_loaded-with_buffer :
    (channel : Channel) (line : Text) (loaded : Option Json) (b : Text) (d : Desktop)
    → consume_loaded line loaded (with_buffer channel b d)
      ≡ with_buffer channel b (consume_loaded line loaded d)
unfolding consume_loaded
consume_loaded-with_buffer channel line (some (object event)) b d =
    rw (set_named-with_buffer channel _ b d) (report-with_buffer channel _ b _)
consume_loaded-with_buffer channel line none b d = report-with_buffer channel _ b d
consume_loaded-with_buffer channel line (some json) b d = report-with_buffer channel _ b d

buffer-with :
    (channel : Channel) (b : Text) (d : Desktop)
    → buffer_of channel (with_buffer channel b d).endpoint ≡ b
buffer-with standard_error b d = refl
buffer-with standard_output b d = refl

with-with :
    (channel : Channel) (a b : Text) (d : Desktop)
    → with_buffer channel a (with_buffer channel b d) ≡ with_buffer channel a d
with-with standard_error a b d = refl
with-with standard_output a b d = refl

abbrev pub joined : List Text → Text
joined [] = []
joined (chunk ∷ chunks) = chunk ++ joined chunks

module _ (loads : Text → Option Json) where
  consume_stripped-with_buffer :
      (channel : Channel) (line : Text) (b : Text) (d : Desktop)
      → consume_stripped loads line (with_buffer channel b d)
        ≡ with_buffer channel b (consume_stripped loads line d)
  consume_stripped-with_buffer channel [] b d = refl
  consume_stripped-with_buffer channel (c ∷ rest) b d =
      consume_loaded-with_buffer channel (c ∷ rest) (loads (c ∷ rest)) b d

  consume_line-with_buffer :
      (channel : Channel) (line : Text) (b : Text) (d : Desktop)
      → consume_log_line loads line (with_buffer channel b d)
        ≡ with_buffer channel b (consume_log_line loads line d)
  unfolding consume_log_line
  consume_line-with_buffer channel line b d = consume_stripped-with_buffer channel (strip line) b d

  consume_lines-with_buffer :
      (channel : Channel) (lines : List Text) (b : Text) (d : Desktop)
      → consume_lines loads lines (with_buffer channel b d)
        ≡ with_buffer channel b (consume_lines loads lines d)
  unfolding consume_lines
  consume_lines-with_buffer channel [] b d = refl
  consume_lines-with_buffer channel (line ∷ lines) b d =
      rw (consume_line-with_buffer channel line b d)
        (consume_lines-with_buffer channel lines b (consume_log_line loads line d))

  consume_lines-append :
      (xs ys : List Text) (d : Desktop)
      → consume_lines loads (xs ++ ys) d ≡ consume_lines loads ys (consume_lines loads xs d)
  unfolding consume_lines
  consume_lines-append [] ys d = refl
  consume_lines-append (x ∷ xs) ys d = consume_lines-append xs ys (consume_log_line loads x d)

  -- What reading does, with the buffer set once
  read_channel_lem :
      (channel : Channel) (received : Text) (d : Desktop)
      → read_channel loads channel received d
        ≡ with_buffer channel (last_line (split_lines (buffer_of channel d.endpoint ++ received))) (
            consume_lines loads
              (front_lines (split_lines (buffer_of channel d.endpoint ++ received)))
              d)
  unfolding read_channel
  read_channel_lem channel received d =
      let buffer = buffer_of channel d.endpoint ++ received in
      rw (consume_lines-with_buffer channel (front_lines (split_lines buffer)) buffer d)
        (with-with channel (last_line (split_lines buffer)) buffer _)

  read-read :
      (channel : Channel) (a b : Text) (d : Desktop)
      → read_channel loads channel b (read_channel loads channel a d)
        ≡ read_channel loads channel (a ++ b) d
  read-read channel a b d =
      let buffer = buffer_of channel d.endpoint in
      let whole = split_lines (buffer ++ a) in
      let after = consume_lines loads (front_lines whole) d in
      let kept = last_line whole in
      let next = split_lines (kept ++ b) in
      let lines : front_lines (split_lines (buffer ++ (a ++ b)))
          ≡ front_lines whole ++ front_lines next =
        ap (λ t. front_lines (split_lines t)) (sym (append_assoc buffer a b))
        ∙ front-append (buffer ++ a) b in
      let rest : last_line (split_lines (buffer ++ (a ++ b))) ≡ last_line next =
        ap (λ t. last_line (split_lines t)) (sym (append_assoc buffer a b))
        ∙ last-append (buffer ++ a) b in
      rw
        (
          read_channel_lem channel (a ++ b) d,
          lines,
          rest,
          consume_lines-append (front_lines whole) (front_lines next) d,
          read_channel_lem channel a d,
          read_channel_lem channel b (with_buffer channel kept after),
          buffer-with channel kept after,
          consume_lines-with_buffer channel (front_lines next) kept after,
        )
        (with-with channel (last_line next) kept _)

  -- The reads of one channel, one after another
  abbrev pub read_chunks : Channel → List Text → Desktop → Desktop
  read_chunks channel [] d = d
  read_chunks channel (chunk ∷ chunks) d =
      read_chunks channel chunks (read_channel loads channel chunk d)

  -- However the output of the process is cut into chunks, at line ends or within a line, reading them
  -- one after another has the effect of reading their text at once: the same lines are consumed in the
  -- same order, and the same unfinished line is kept.
  pub read_chunks-joined :
      (channel : Channel) (chunk : Text) (chunks : List Text) (d : Desktop)
      → read_chunks channel (chunk ∷ chunks) d
        ≡ read_channel loads channel (joined (chunk ∷ chunks)) d
  read_chunks-joined channel chunk [] d = rw (append-nil chunk) refl
  read_chunks-joined channel chunk (next ∷ chunks) d =
      read_chunks-joined channel next chunks (read_channel loads channel chunk d)
      ∙ read-read channel chunk (joined (next ∷ chunks)) d
