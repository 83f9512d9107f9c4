-- ===== src/Dbus/Queue/Lines.antt =====
-- iqueue_pop_line() of src/dbus/queue.c, and the lines that it takes from the buffer.
use dbus_broker.Common.{
  ℕ, zero, suc, ◌+◌, ◌-◌, ◌≤◌, Bytes, Bool, false, ◌&&◌, Option, none, some, List, [], ◌∷◌, ◌++◌,
  ◌==◌, if◌then◌else◌, length, take, drop, is_nil, ◌≡◌, refl, arith, get_elem?, not, ap, sym, ◌∙◌,
  length-append, append_assoc,
}
use mathlib.Core.Path.{subst}
use dbus_broker.Dbus.Queue.{IQueue, is_some}

-- How the loop ends: without a line, at the newline of a line, or at a last byte that came with
-- descriptors; with the cursor there.
pub data Scan : Type 0 where
  exhausted newline refused : ℕ → Scan

-- data[n] = 0
unfoldable pub clear_byte : ℕ → Bytes → Bytes
clear_byte n [] = []
clear_byte zero (c ∷ s) = 0 ∷ s
clear_byte (suc n) (c ∷ s) = c ∷ clear_byte n s

unfoldable pub fdlist_count : Option (List ℕ) → ℕ
fdlist_count none = 0
fdlist_count (some fds) = length fds

-- The loop: `after_cr` says whether there is a byte in front of the cursor and it is \r, and the list
-- is the rest of the buffer.
unfoldable pub scan : Bool → Bool → ℕ → Bytes → Scan
scan fds after_cr cursor [] = exhausted cursor
scan fds after_cr cursor (c ∷ s) =
    let more = scan fds (c == 13) (cursor + 1) s in
    if is_nil s && fds
    then refused cursor
    else if after_cr && (c == 10)
    then newline cursor
    else more

-- Whether data[cursor - 1] is \r.
unfoldable pub is_after_cr : ℕ → Bytes → Bool
is_after_cr zero bytes = false
is_after_cr (suc before) bytes = elim (get_elem? bytes before) [ none ↦ false | some c ↦ c == 13 ]

pub data Line : Type 0 where
  line : Bytes → Line
  pending : Line
  violation : Line
  assertion : Line

-- The length of the line whose newline is at the cursor. The \r in front of it is not before
-- `data_start`, since the byte there, if there is one, is the newline of another line.
abbrev line_length : IQueue → ℕ → ℕ
line_length iq cursor = cursor - iq.data_start - 1

unfoldable pub cut : IQueue → Scan → IQueue × Line
cut iq (exhausted cursor) = (record iq { data_cursor = cursor }, pending)
cut iq (refused cursor) = (record iq { data_cursor = cursor }, violation)
cut iq (newline cursor) = (
  record iq {
    buffer = clear_byte (iq.data_start + line_length iq cursor) iq.buffer;
    data_start = cursor + 1;
    data_cursor = cursor + 1;
  },
  line (take (line_length iq cursor) (drop iq.data_start iq.buffer)),
)

-- iqueue_pop_line()
unfoldable pub iqueue_pop_line : IQueue → IQueue × Line
iqueue_pop_line iq =
    if is_some iq.pending
    then (iq, assertion)
    else cut iq (
        scan (not (fdlist_count iq.fds == 0)) (is_after_cr iq.data_cursor iq.buffer) iq.data_cursor
          (drop iq.data_cursor iq.buffer))

-- The reference: the position behind the first \r\n, counting from the one of the list's first byte.
unfoldable pub line_end : Bool → ℕ → Bytes → Option ℕ
line_end after_cr at [] = none
line_end after_cr at (c ∷ s) =
    let more = line_end (c == 13) (at + 1) s in
    if after_cr && (c == 10) then some (at + 1) else more

-- Whether a list ends in \r, `after_cr` if it is empty.
unfoldable pub last_cr : Bool → Bytes → Bool
last_cr after_cr [] = after_cr
last_cr after_cr (c ∷ s) = last_cr (c == 13) s

line_end-append :
    (b : Bool) (at : ℕ) (s t : Bytes)
    → line_end b at s ≡ none
    → line_end b at (s ++ t) ≡ line_end (last_cr b s) (at + length s) t
unfolding line_end last_cr
line_end-append b at [] t h = ground arith
line_end-append b at (c ∷ s) t h = ground (arith, line_end-append (c == 13) (at + 1) s t)

line_end-lt : (b : Bool) (at k : ℕ) (s : Bytes) → line_end b at s ≡ some k → at + 1 ≤ k
unfolding line_end
line_end-lt b at k [] h = cc
line_end-lt b at k (c ∷ s) h = ground (arith, line_end-lt (c == 13) (at + 1) k s)

last_cr-append : (b : Bool) (s t : Bytes) → last_cr b (s ++ t) ≡ last_cr (last_cr b s) t
unfolding last_cr
last_cr-append b [] t = refl
last_cr-append b (c ∷ s) t = last_cr-append (c == 13) s t

abbrev scan_of : Option ℕ → ℕ → Scan
scan_of none last = exhausted last
scan_of (some k) last = newline (k - 1)

scan_lem :
    (b : Bool) (at : ℕ) (s : Bytes) → scan false b at s ≡ scan_of (line_end b at s) (at + length s)
unfolding scan line_end
scan_lem b at [] = ground arith
scan_lem b at (c ∷ s) = ground (arith, scan_lem (c == 13) (at + 1) s)

is_after_cr-cons :
    (c : ℕ) (s t : Bytes) → is_after_cr (suc (length s)) (c ∷ (s ++ t)) ≡ last_cr (c == 13) s
unfolding is_after_cr last_cr
is_after_cr-cons c [] t = refl
is_after_cr-cons c (d ∷ s) t = is_after_cr-cons d s t

is_after_cr_lem : (s t : Bytes) → is_after_cr (length s) (s ++ t) ≡ last_cr false s
is_after_cr_lem [] t = unfold is_after_cr last_cr in refl
is_after_cr_lem (c ∷ s) t = unfold last_cr in is_after_cr-cons c s t

drop-clear_byte : (i k : ℕ) (s : Bytes) → i + 1 ≤ k → drop k (clear_byte i s) ≡ drop k s
unfolding clear_byte
drop-clear_byte i zero s h = absurd (omega arith)
drop-clear_byte i (suc k) [] h = refl
drop-clear_byte zero (suc k) (c ∷ s) h = refl
drop-clear_byte (suc i) (suc k) (c ∷ s) h = drop-clear_byte i k s (omega arith)

drop-length : (s t : Bytes) → drop (length s) (s ++ t) ≡ t
drop-length [] t = refl
drop-length (c ∷ s) t = drop-length s t

-- What a pop gives for the position behind the first line, of the bytes that were not taken yet.
abbrev pub Pops : IQueue → Bytes → Option ℕ → IQueue × Line → Type 0
Pops iq unread none (iq', o) = (o ≡ pending) × (iq' ≡ record iq { data_cursor = length iq.buffer })
Pops iq unread (some k) (iq', o) =
    (o ≡ line (take (k - iq.data_start - 2) unread))
    × (iq'.data_start ≡ k)
    × (iq'.data_cursor ≡ k)
    × (drop k iq'.buffer ≡ drop k iq.buffer)

cut-Pops :
    (iq : IQueue) (last : ℕ) (k : Option ℕ)
    → last ≡ length iq.buffer
    → ((n : ℕ) → k ≡ some n → iq.data_start + 1 ≤ n)
    → Pops iq (drop iq.data_start iq.buffer) k (cut iq (scan_of k last))
unfolding cut
cut-Pops iq last none e h = (refl, rw e refl)
cut-Pops iq last (some k) e h =
    let le = h k refl in
    (
      ap (λ n. line (take n (drop iq.data_start iq.buffer))) (omega arith),
      omega arith,
      omega arith,
      drop-clear_byte _ k iq.buffer (omega arith),
    )

-- The bytes in front of the cursor: those that were taken, and those that were searched in vain.
pub record Searched (iq : IQueue) : Type 0 where
  pub before : Bytes
  pub seen : Bytes
  pub rest : Bytes
  pub split : iq.buffer ≡ before ++ (seen ++ rest)
  pub start : iq.data_start ≡ length before
  pub cursor : iq.data_cursor ≡ length before + length seen
  pub no_line : line_end false iq.data_start seen ≡ none
  pub no_cr : last_cr false before ≡ false

module _ (iq : IQueue) (s : Searched iq) where
  unread : drop iq.data_start iq.buffer ≡ s.seen ++ s.rest
  unread = rw (s.start, s.split) (drop-length s.before (s.seen ++ s.rest))

  at_cursor : iq.data_cursor ≡ length (s.before ++ s.seen)
  at_cursor = s.cursor ∙ sym (length-append s.before s.seen)

  joined : iq.buffer ≡ (s.before ++ s.seen) ++ s.rest
  joined = s.split ∙ sym (append_assoc s.before s.seen s.rest)

  ahead : drop iq.data_cursor iq.buffer ≡ s.rest
  ahead = rw (at_cursor, joined) (drop-length (s.before ++ s.seen) s.rest)

  cr_at_cursor : is_after_cr iq.data_cursor iq.buffer ≡ last_cr false s.seen
  cr_at_cursor =
      rw (at_cursor, joined, is_after_cr_lem (s.before ++ s.seen) s.rest)
        (last_cr-append false s.before s.seen ∙ ap (λ b. last_cr b s.seen) s.no_cr)

  last : iq.data_cursor + length s.rest ≡ length iq.buffer
  last = omega (arith, at_cursor, ap length joined, length-append (s.before ++ s.seen) s.rest)

  resumed :
      line_end false iq.data_start (drop iq.data_start iq.buffer)
      ≡ line_end (last_cr false s.seen) iq.data_cursor s.rest
  resumed =
      ap (line_end false iq.data_start) unread
      ∙ line_end-append false iq.data_start s.seen s.rest s.no_line
      ∙ ap (λ n. line_end (last_cr false s.seen) n s.rest) (omega (arith, s.start, s.cursor))

  scanned :
      scan false
        (is_after_cr iq.data_cursor iq.buffer)
        iq.data_cursor
        (drop iq.data_cursor iq.buffer)
      ≡ scan_of (line_end false iq.data_start (drop iq.data_start iq.buffer)) (length iq.buffer)
  scanned =
      rw (cr_at_cursor, ahead, resumed, sym last)
        (scan_lem (last_cr false s.seen) iq.data_cursor s.rest)

  popped :
      iq.pending ≡ none
      → fdlist_count iq.fds ≡ 0
      → iqueue_pop_line iq
        ≡ cut iq (
            scan_of
              (line_end false iq.data_start (drop iq.data_start iq.buffer))
              (length iq.buffer))
  unfolding iqueue_pop_line
  popped idle no_fds =
      let scan_at = λ (n : ℕ). cut iq (
        scan (not (n == 0)) (is_after_cr iq.data_cursor iq.buffer) iq.data_cursor
          (drop iq.data_cursor iq.buffer)) in
      ap (λ p. if is_some p then (iq, assertion) else scan_at (fdlist_count iq.fds)) idle
      ∙ ap scan_at no_fds
      ∙ ap (cut iq) scanned

-- Where no descriptors came with the bytes, and no line ends in those that were searched before, a pop
-- gives the first line of all that was not taken yet, without its \r\n, and goes on behind it; if
-- there is none, all bytes are kept, and the next search begins at the end of the buffer.
pub iqueue_pop_line_lem :
    (iq : IQueue)
    → Searched iq
    → iq.pending ≡ none
    → fdlist_count iq.fds ≡ 0
    → let unread = drop iq.data_start iq.buffer in
      Pops iq unread (line_end false iq.data_start unread) (iqueue_pop_line iq)
iqueue_pop_line_lem iq s idle no_fds =
    let unread = drop iq.data_start iq.buffer in
    let end = line_end false iq.data_start unread in
    subst (Pops iq unread end) (sym (popped iq s idle no_fds))
      (cut-Pops iq (length iq.buffer) end refl (λ n e. line_end-lt false iq.data_start n unread e))
