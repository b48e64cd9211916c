-- ===== src/Refinement/Serve.antt =====
-- Sequences of calls of the facade, as the bus mutex orders them.
use mesi_cache_coherence.Common.{List, [], ◌∷◌, Result, ok, err, ◌>>=◌}
use mesi_cache_coherence.System.{MesiSystem}
use mesi_cache_coherence.System
use mesi_cache_coherence.Bus.{RandomEngine}
use mesi_cache_coherence.Refinement.Flat.{
  Request, read, write, cas, fetch_and_add, fence, Answer, done, word, swapped,
}

module _ ⦃std : RandomEngine⦄ where
  unfoldable pub serve : Request → MesiSystem → Result (MesiSystem × Answer)
  serve (read core addr) s = do (s', v) ← System.read core addr s; ok (s', word v)
  serve (write core addr value) s = do s' ← System.write core addr value s; ok (s', done)
  serve (cas core addr expected new_val) s = do
    (s', r) ← System.cas core addr expected new_val s
    ok (s', swapped r.old_val r.success)
  serve (fetch_and_add core addr delta) s = do
    (s', v) ← System.fetch_and_add core addr delta s
    ok (s', word v)
  serve (fence core) s = do s' ← System.fence core s; ok (s', done)

  -- A call that throws leaves the system as it was.
  abbrev pub settle : MesiSystem → Result (MesiSystem × Answer) → MesiSystem × Result Answer
  settle s (ok (s', a)) = (s', ok a)
  settle s (err e) = (s, err e)

  unfoldable pub run : List Request → MesiSystem → MesiSystem × List (Result Answer)
  run [] s = (s, [])
  run (q ∷ qs) s =
      let (s', a) = settle s (serve q s) in let (s'', as') = run qs s' in (s'', a ∷ as')
