-- ===== src/Examples/Setup.antt =====
-- Two fresh cores, and a shuffle that rotates.
use mesi_cache_coherence.Common.{
  ℕ, ◌+◌, ◌≡◌, refl, List, [], ◌∷◌, ◌++◌, arith, count, contains, false, ok, pos,
}
use mesi_cache_coherence.Types.{line_of}
use mesi_cache_coherence.Bus.{
  RandomEngine, SnoopingBus, add_word, register_addr, account, others_from, snoop_order,
}
use mesi_cache_coherence.Controller.{
  broadcast, snoop_each, snoop, react, install, read_miss, processor_read, own_line,
  acquire_exclusive, processor_write, fill_line, fill_words,
}
use mesi_cache_coherence.Bus
use mesi_cache_coherence.System.{
  MesiSystem, validate_core, log, locked_read, locked_write, locked_cas, locked_add, locked_acquire,
  locked_put,
}
use mesi_cache_coherence.Refinement.Flat.{Request}
use mesi_cache_coherence.Refinement.Serve.{run, serve}
use mesi_cache_coherence.System

count-append : (i : ℕ) (xs ys : List ℕ) → count i (xs ++ ys) ≡ count i xs + count i ys
unfolding count
count-append i [] ys = omega arith
count-append i (x ∷ xs) ys = omega (arith, count-append i xs ys)

unfoldable pub rotate : ℕ → List ℕ → List ℕ × ℕ
rotate g [] = ([], g)
rotate g (x ∷ xs) = (xs ++ x ∷ [], g + 1)

pub count-rotate : (g : ℕ) (xs : List ℕ) (i : ℕ) → count i (rotate g xs).0 ≡ count i xs
unfolding rotate count
count-rotate g [] i = refl
count-rotate g (x ∷ xs) i = omega (arith, count-append i xs (x ∷ []))

instance abbrev pub rotating : RandomEngine
rotating = record {
  fresh = 5489;
  seeded = λ seed. seed;
  next = λ g. (g, g + 1);
  shuffle = rotate;
  count-shuffle = count-rotate;
}

abbrev pub system_of : ℕ → MesiSystem
system_of n = record {
  bus = Bus.init n;
  timestamp = 0;
  tracing = false;
  trace = [];
  prog_idx = λ _. 0;
}

pub init_two : System.init (pos 2) ≡ ok (system_of 2)
unfolding System.init System.checked_core_count
init_two = refl

pub init_three : System.init (pos 3) ≡ ok (system_of 3)
unfolding System.init System.checked_core_count
init_three = refl

-- The bus of three cores after a sequence of calls, with all that it computes by.
unfoldable pub after : List Request → SnoopingBus
unfolding run serve System.read System.write System.cas System.fetch_and_add System.fence
    validate_core locked_read locked_write locked_cas locked_add locked_acquire locked_put log
    Bus.init register_addr add_word contains account snoop_order others_from broadcast snoop_each
    snoop react install read_miss processor_read own_line acquire_exclusive processor_write
    fill_line fill_words line_of rotate
after qs = (run qs (system_of 3)).0.bus
