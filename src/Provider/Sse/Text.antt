-- ===== src/Provider/Sse/Text.antt =====
-- The text of events, and what the framer makes of its lines.
use tracepress.Base.{
  ℕ, suc, ◌+◌, ◌≤◌, ◌≡◌, refl, sym, ap, ◌∙◌, true, false, not, ◌||◌, Option, none, some, List, [],
  ◌∷◌, ◌++◌, append_assoc, append-nil, arith, Bytes, ◌==◌, if◌then◌else◌, le→leb, u64_max, eq_bytes,
  length, All, All-append, is_utf8, ok,
}
use tracepress.Base.Ascii.{ascii}
use tracepress.Provider.Domain.{ObservationLimits}
use tracepress.Provider.Sse.{
  SseFramer, SseEvent, is_some, is_empty, done, ◌>>>◌, emit_event, split_field, apply_field,
  finish_line, frame_plain, frame_pending, frame_byte, frame,
}

-- Bytes without a line feed or a carriage return.
abbrev pub IsPlain : Bytes → Type 0
IsPlain = All (λ b. ((b == 10) ≡ false) × ((b == 13) ≡ false))

-- What a server writes for one event, before what follows it: its name, if it has one, one line of
-- data, and an empty line.
abbrev pub name_line : Option Bytes → Bytes → Bytes
name_line none rest = rest
name_line (some name) rest = (ascii "event: " ++ name) ++ 10 ∷ rest

abbrev pub print : SseEvent → Bytes → Bytes
print e rest = name_line e.event ((ascii "data: " ++ e.«data») ++ 10 ∷ 10 ∷ rest)

unfoldable pub print_all : List SseEvent → Bytes
print_all [] = []
print_all (e ∷ es) = print e (print_all es)

abbrev pub name_size : Option Bytes → ℕ
name_size none = 0
name_size (some name) = 7 + length name

abbrev pub NameIsSent : ObservationLimits → Option Bytes → Type 0
NameIsSent l none = Unit
NameIsSent l (some name) = IsPlain name × (is_utf8 name ≡ true) × (length name ≤ l.max_string_bytes)

-- An event that can be written in this way, within the limits.
abbrev pub IsSent : ObservationLimits → SseEvent → Type 0
IsSent l e =
    NameIsSent l e.event
    × IsPlain e.«data»
    × (name_size e.event + (6 + length e.«data») ≤ l.max_sse_event_bytes)
    × ((is_some e.event || not (is_empty e.«data»)) ≡ true)

abbrev with_line : SseFramer → Bytes → SseFramer
with_line s bytes = record s { line = s.line ++ bytes; event_bytes = s.event_bytes + length bytes }

-- A plain byte goes to the line, when the limit allows it.
frame_plain_takes :
    (s : SseFramer) (b : ℕ)
    → (b == 10) ≡ false
    → (b == 13) ≡ false
    → s.event_bytes + 1 ≤ s.limits.max_sse_event_bytes
    → s.limits.max_sse_event_bytes ≤ u64_max
    → frame_plain b s ≡ done (with_line s (b ∷ []))
frame_plain_takes s b feed return fits word = ground arith

frame_byte_plain :
    (s : SseFramer) (b : ℕ)
    → s.pending_cr ≡ false
    → (b == 10) ≡ false
    → (b == 13) ≡ false
    → s.event_bytes + 1 ≤ s.limits.max_sse_event_bytes
    → s.limits.max_sse_event_bytes ≤ u64_max
    → frame_byte s b ≡ done (with_line s (b ∷ []))
unfolding frame_byte
frame_byte_plain s b settled feed return fits word =
    ap (λ p. frame_pending p b s) settled ∙ frame_plain_takes s b feed return fits word

pub frame_byte_feed : (s : SseFramer) → s.pending_cr ≡ false → frame_byte s 10 ≡ finish_line s
unfolding frame_byte
frame_byte_feed s settled = ap (λ p. frame_pending p 10 s) settled

with_nothing : (s : SseFramer) → with_line s [] ≡ s
with_nothing s =
    let lines : s.line ++ [] ≡ s.line = append-nil s.line in
    let sizes : s.event_bytes + 0 ≡ s.event_bytes = omega arith in
    λ i. record s { line = lines i; event_bytes = sizes i }

with_both :
    (s : SseFramer) (b : ℕ) (bs : Bytes)
    → with_line (with_line s (b ∷ [])) bs ≡ with_line s (b ∷ bs)
with_both s b bs =
    let lines : (s.line ++ b ∷ []) ++ bs ≡ s.line ++ b ∷ bs = append_assoc s.line (b ∷ []) bs in
    let sizes : s.event_bytes + 1 + length bs ≡ s.event_bytes + suc (length bs) = omega arith in
    λ i. record s { line = lines i; event_bytes = sizes i }

-- A plain line and the line feed behind it.
frame_line :
    (bs rest : Bytes) (s : SseFramer)
    → s.pending_cr ≡ false
    → IsPlain bs
    → s.event_bytes + length bs ≤ s.limits.max_sse_event_bytes
    → s.limits.max_sse_event_bytes ≤ u64_max
    → frame s (bs ++ 10 ∷ rest) ≡ finish_line (with_line s bs) >>> (λ t. frame t rest)
unfolding frame
frame_line [] rest s settled plain fits word =
    ap (λ f. f >>> (λ t. frame t rest))
      (frame_byte_feed s settled ∙ ap finish_line (sym (with_nothing s)))
frame_line (b ∷ bs) rest s settled ((feed, return), plain) fits word =
    ap (λ f. f >>> (λ t. frame t (bs ++ 10 ∷ rest)))
      (frame_byte_plain s b settled feed return (omega arith) word)
    ∙ frame_line bs rest (with_line s (b ∷ [])) settled plain (omega arith) word
    ∙ ap (λ t. finish_line t >>> (λ u. frame u rest)) (with_both s b bs)

-- The framer between two events.
abbrev pub between : ObservationLimits → ℕ → SseFramer
between l n = record {
  limits = l;
  line = [];
  event_name = none;
  «data» = [];
  event_bytes = 0;
  event_count = n;
  pending_cr = false;
  failure = none;
}

finish_line_name :
    (s : SseFramer) (name : Bytes)
    → is_utf8 name ≡ true
    → length name ≤ s.limits.max_string_bytes
    → finish_line (record s { line = ascii "event: " ++ name })
      ≡ done (record s { line = []; event_name = some name })
unfolding finish_line split_field apply_field eq_bytes
finish_line_name s name text fits =
    rw (text, le→leb (length name) s.limits.max_string_bytes fits) refl

finish_line_data :
    (s : SseFramer) (bytes : Bytes)
    → length bytes ≤ s.limits.max_sse_event_bytes
    → s.limits.max_sse_event_bytes ≤ u64_max
    → finish_line (record s { line = ascii "data: " ++ bytes; «data» = [] })
      ≡ done (record s { line = []; «data» = bytes })
unfolding finish_line split_field apply_field eq_bytes
finish_line_data s bytes fits word = ground arith

emit_event_counts :
    (s : SseFramer) (e : SseEvent)
    → suc s.event_count ≤ s.limits.max_sse_events
    → s.limits.max_sse_events ≤ u64_max
    → emit_event (record s { line = []; event_name = e.event; «data» = e.«data» }) ≡ record {
      framer = record s {
        line = [];
        event_count = s.event_count + 1;
        event_name = none;
        «data» = [];
        event_bytes = 0;
      };
      events = e ∷ [];
      framing = ok tt;
    }
unfolding emit_event
emit_event_counts s e fits word = ground arith

pub finish_line_emit :
    (s : SseFramer) (e : SseEvent)
    → (is_some e.event || not (is_empty e.«data»)) ≡ true
    → suc s.event_count ≤ s.limits.max_sse_events
    → s.limits.max_sse_events ≤ u64_max
    → finish_line (record s { line = []; event_name = e.event; «data» = e.«data» }) ≡ record {
      framer = record s {
        line = [];
        event_count = s.event_count + 1;
        event_name = none;
        «data» = [];
        event_bytes = 0;
      };
      events = e ∷ [];
      framing = ok tt;
    }
unfolding finish_line emit_event
finish_line_emit s e pending fits word =
    let waiting : SseFramer = record s { line = []; event_name = e.event; «data» = e.«data» } in
    ap (λ b. if b then emit_event waiting else done waiting) pending
    ∙ emit_event_counts s e fits word

event_IsPlain : (name : Bytes) → IsPlain name → IsPlain (ascii "event: " ++ name)
event_IsPlain name =
    All-append (λ b. ((b == 10) ≡ false) × ((b == 13) ≡ false)) (ascii "event: ") name
      ((
        (refl, refl),
        (
          (refl, refl),
          ((refl, refl), ((refl, refl), ((refl, refl), ((refl, refl), ((refl, refl), tt))))),
        ),
      ))

data_IsPlain : (bytes : Bytes) → IsPlain bytes → IsPlain (ascii "data: " ++ bytes)
data_IsPlain bytes =
    All-append (λ b. ((b == 10) ≡ false) × ((b == 13) ≡ false)) (ascii "data: ") bytes
      ((
        (refl, refl),
        ((refl, refl), ((refl, refl), ((refl, refl), ((refl, refl), ((refl, refl), tt))))),
      ))

-- The framer behind the name of an event.
abbrev pub named : ObservationLimits → ℕ → Option Bytes → ℕ → SseFramer
named l n name size = record (between l n) { event_name = name; event_bytes = size }

-- The line that a framer without one reads.
frame_fresh_line :
    (bs rest : Bytes) (s : SseFramer) (size : ℕ)
    → s.pending_cr ≡ false
    → s.line ≡ []
    → IsPlain bs
    → s.event_bytes + length bs ≡ size
    → size ≤ s.limits.max_sse_event_bytes
    → s.limits.max_sse_event_bytes ≤ u64_max
    → frame s (bs ++ 10 ∷ rest)
      ≡ finish_line (record s { line = bs; event_bytes = size }) >>> (λ t. frame t rest)
frame_fresh_line bs rest s size settled empty plain sum fits word =
    frame_line bs rest s settled plain (omega arith) word ∙ (λ i.
      finish_line (record s { line = empty i ++ bs; event_bytes = sum i }) >>> (λ t. frame t rest))

pub frame_name :
    (l : ObservationLimits) (n : ℕ) (name : Option Bytes) (rest : Bytes)
    → NameIsSent l name
    → name_size name ≤ l.max_sse_event_bytes
    → l.max_sse_event_bytes ≤ u64_max
    → frame (between l n) (name_line name rest) ≡ frame (named l n name (name_size name)) rest
frame_name l n none rest sent fits word = refl
frame_name l n (some name) rest (plain, text, short) fits word =
    frame_fresh_line (ascii "event: " ++ name) rest (between l n) (7 + length name) refl refl
      (event_IsPlain name plain) (omega arith) fits word
    ∙ ap (λ f. f >>> (λ t. frame t rest))
        (finish_line_name (record (between l n) { event_bytes = 7 + length name }) name text short)

pub frame_data :
    (l : ObservationLimits) (n : ℕ) (name : Option Bytes) (size : ℕ) (bytes rest : Bytes)
    → IsPlain bytes
    → size + (6 + length bytes) ≤ l.max_sse_event_bytes
    → l.max_sse_event_bytes ≤ u64_max
    → frame (named l n name size) ((ascii "data: " ++ bytes) ++ 10 ∷ rest)
      ≡ frame (record (named l n name (size + (6 + length bytes))) { «data» = bytes }) rest
frame_data l n name size bytes rest plain fits word =
    frame_fresh_line (ascii "data: " ++ bytes) rest (named l n name size)
      (size + (6 + length bytes)) refl refl (data_IsPlain bytes plain) (omega arith) fits word
    ∙ ap (λ f. f >>> (λ t. frame t rest))
        (finish_line_data (named l n name (size + (6 + length bytes))) bytes (omega arith) word)
