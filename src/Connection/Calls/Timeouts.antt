-- ===== src/Connection/Calls/Timeouts.antt =====
-- The client-side timeout of a stream (src/lib/GrpcClient.ts) among the events of the stream.
use zeebe_client_node_js.Base.{
  ℕ, ◌≡◌, inl, inr, refl, ◌∙◌, Bool, true, false, none, some, List, [], ◌∷◌, ◌++◌, String,
  if◌then◌else◌, arith, Bool-cases,
}
use zeebe_client_node_js.Connection.Calls.{
  StreamEvent, stream_error, end_event, Streaming, on_stream_event, client_side_timeout,
}

-- What happens to a stream: it emits an event, or the time of its timeout has come.
pub data Move : Type 0 where
  emits : StreamEvent → Move
  time_is_up : Move

-- The stream after a move at a time, and what it emits because of its timeout.
abbrev moves : ℕ → String → Streaming → Move → Streaming × List StreamEvent
moves now host s (emits e) = ((on_stream_event now host s e).0, [])
moves now host s time_is_up = client_side_timeout now host s

-- The stream after moves at their times, and all that it emits because of its timeout.
abbrev pub run_stream : String → Streaming → List (ℕ × Move) → Streaming × List StreamEvent
run_stream host s [] = (s, [])
run_stream host s ((now, m) ∷ rest) =
    let (s', emitted) = moves now host s m in
    let (s'', later) = run_stream host s' rest in (s'', emitted ++ later)

-- The events after which nothing more comes of a stream.
abbrev is_final : StreamEvent → Bool
is_final (stream_error message) = true
is_final end_event = true
is_final _ = false

-- Whether the time is up before the stream fails or ends of itself.
abbrev pub cut_short : List (ℕ × Move) → Bool
cut_short [] = false
cut_short ((now, time_is_up) ∷ rest) = true
cut_short ((now, emits e) ∷ rest) =
    let later = cut_short rest in if is_final e then false else later

-- Whether the stream has failed or ended, of itself or because its time was up.
abbrev pub over : List (ℕ × Move) → Bool
over [] = false
over ((now, time_is_up) ∷ rest) = true
over ((now, emits e) ∷ rest) = let later = over rest in if is_final e then true else later

moves_cleared :
    (now : ℕ) (host : String) (s : Streaming) (m : Move)
    → s.timeout ≡ none
    → ((moves now host s m).0.timeout ≡ none) × ((moves now host s m).1 ≡ [])
unfolding on_stream_event client_side_timeout
moves_cleared now host s (emits e) h = ground arith
moves_cleared now host s time_is_up h = ground arith

run_stream_cleared :
    (host : String) (s : Streaming) (l : List (ℕ × Move))
    → s.timeout ≡ none
    → ((run_stream host s l).0.timeout ≡ none) × ((run_stream host s l).1 ≡ [])
run_stream_cleared host s [] h = (h, refl)
run_stream_cleared host s ((now, m) ∷ rest) h =
    let (t, e) = moves_cleared now host s m h in
    let (t', e') = run_stream_cleared host (moves now host s m).0 rest t in (t', rw (e, e') refl)

time_is_up_lem :
    (now : ℕ) (host : String) (s : Streaming) (due : ℕ)
    → s.timeout ≡ some due
    → ((client_side_timeout now host s).0.timeout ≡ none)
      × ((client_side_timeout now host s).1 ≡ end_event ∷ [])
unfolding on_stream_event client_side_timeout
time_is_up_lem now host s due h = ground arith

final_clears :
    (now : ℕ) (host : String) (s : Streaming) (e : StreamEvent)
    → is_final e ≡ true
    → (on_stream_event now host s e).0.timeout ≡ none
unfolding on_stream_event
final_clears now host s e h = ground arith

others_keep :
    (now : ℕ) (host : String) (s : Streaming) (e : StreamEvent)
    → is_final e ≡ false
    → (on_stream_event now host s e).0.timeout ≡ s.timeout
unfolding on_stream_event
others_keep now host s e h = ground arith

-- Whatever a stream with its timeout pending emits, and however often its time is up: because of its
-- timeout it emits 'end' once if its time is up before it has failed or ended of itself, and nothing
-- otherwise, and its timeout stays pending just as long as it has not failed or ended.
pub cut_short_once :
    (host : String) (s : Streaming) (due : ℕ) (l : List (ℕ × Move))
    → s.timeout ≡ some due
    → ((run_stream host s l).1 ≡ (if cut_short l then end_event ∷ [] else []))
      × ((run_stream host s l).0.timeout ≡ (if over l then none else some due))
cut_short_once host s due [] h = (refl, h)
cut_short_once host s due ((now, time_is_up) ∷ rest) h =
    let (t, e) = time_is_up_lem now host s due h in
    let (t', e') = run_stream_cleared host (client_side_timeout now host s).0 rest t in
    (rw (e, e') refl, t')
cut_short_once host s due ((now, emits e) ∷ rest) h = elim (Bool-cases (is_final e)) [
  | inl f ↦
      let (t, e') =
        run_stream_cleared host (on_stream_event now host s e).0 rest
          (final_clears now host s e f) in
      rw f (e', t)
  | inr f ↦ rw f (
      cut_short_once host (on_stream_event now host s e).0 due rest
        (others_keep now host s e f ∙ h))
]
