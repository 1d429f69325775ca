-- ===== src/Registry/Threads/Steps.antt =====
-- The steps of one thread that registers, and of any that look up, in a registry of
-- include/pipepp/core/source_registry.hpp, held against `Invariant`.
use pipepp_core.Prelude.{
  suc, ◌≡◌, refl, sym, ap, ◌∙◌, true, [], ◌∷◌, ◌++◌, get_elem?-set_self, subst, arith, length-set,
}
use pipepp_core.Registry.{entry_at, find_entry}
use pipepp_core.Registry.Threads.Entries.{Complete}
use pipepp_core.Registry.Threads.{
  idle, scheme_stored, factory_stored, System, guarded, Step, loads, stores_scheme, stores_factory,
  publishes, reads_count, looks, gives_up,
}
use pipepp_core.Registry.Threads.Invariant.{
  WriterFine, Fine, the_writer, reader_keeps, Complete-set, readers-set, looked-Fine, guarded-Fine,
  reader_counts, Complete-suc,
}

module _ {A W : Type 0} where
  pub Step-Fine : (x y : System A W) → Fine x → Step x y → Fine y
  unfolding find_entry
  Step-Fine x _ fine (loads j s f results queue at) =
      let (same, put) = the_writer x.writers fine.writer _ j fine.one at in
      record {
        writer = guarded x.registry s f results queue;
        one = put _;
        room = fine.room;
        writes = guarded-Fine x.registry s f results queue fine.room;
        complete = fine.complete;
        reads = fine.reads;
      }
  Step-Fine x _ fine (stores_scheme j idx s f results queue at) =
      let (same, put) = the_writer x.writers fine.writer _ j fine.one at in
      let (counted, inside) = subst (WriterFine x.registry) same fine.writes in
      record {
        writer = scheme_stored idx s f results queue;
        one = put _;
        room = length-set x.registry.entries idx _ ∙ fine.room;
        writes = (counted, omega (arith, inside, length-set x.registry.entries idx _));
        complete = Complete-set x.registry idx _ (omega (arith, counted)) fine.complete;
        reads = λ i rd h.
            reader_keeps x.registry idx x.registry.count _ rd (omega (arith, counted)) (omega arith)
              (fine.reads i rd h);
      }
  Step-Fine x _ fine (stores_factory j idx s f results queue at) =
      let (same, put) = the_writer x.writers fine.writer _ j fine.one at in
      let (counted, inside) = subst (WriterFine x.registry) same fine.writes in
      record {
        writer = factory_stored idx s f results queue;
        one = put _;
        room = length-set x.registry.entries idx _ ∙ fine.room;
        writes = (
          counted,
          ap (λ o. (entry_at x.registry.config o).factory)
              (get_elem?-set_self x.registry.entries idx _ inside),
        );
        complete = Complete-set x.registry idx _ (omega (arith, counted)) fine.complete;
        reads = λ i rd h.
            reader_keeps x.registry idx x.registry.count _ rd (omega (arith, counted)) (omega arith)
              (fine.reads i rd h);
      }
  Step-Fine x _ fine (publishes j idx s f results queue at) =
      let (same, put) = the_writer x.writers fine.writer _ j fine.one at in
      let (counted, stored) = subst (WriterFine x.registry) same fine.writes in
      record {
        writer = idle (results ++ true ∷ []) queue;
        one = put _;
        room = fine.room;
        writes = tt;
        complete =
            Complete-suc x.registry.config idx x.registry.entries f
              (subst (λ n. Complete x.registry.config n x.registry.entries) (sym counted)
                fine.complete)
              stored;
        reads = λ i rd h.
            reader_counts x.registry (suc idx) rd (omega (arith, counted)) (fine.reads i rd h);
      }
  Step-Fine x _ fine (reads_count j scheme at) = record {
    writer = fine.writer;
    one = fine.one;
    room = fine.room;
    writes = fine.writes;
    complete = fine.complete;
    reads = readers-set x.registry x.readers j _ fine.reads (omega arith, omega arith, refl);
  }
  Step-Fine x _ fine (looks j scheme count i at h) = record {
    writer = fine.writer;
    one = fine.one;
    room = fine.room;
    writes = fine.writes;
    complete = fine.complete;
    reads =
        readers-set x.registry x.readers j _ fine.reads
          (looked-Fine x.registry scheme count i (fine.reads j _ at) h);
  }
  Step-Fine x _ fine (gives_up j scheme count i at h) =
      let (p, q, unseen) = fine.reads j _ at in
      let e : i ≡ count = omega arith in
      record {
        writer = fine.writer;
        one = fine.one;
        room = fine.room;
        writes = fine.writes;
        complete = fine.complete;
        reads = readers-set x.registry x.readers j _ fine.reads (
          p,
          sym unseen ∙ ap (λ n. find_entry x.registry.config n 0 x.registry.entries scheme) e,
        );
      }
