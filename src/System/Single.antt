-- ===== src/System/Single.antt =====
-- worker.py, ingest.py and cli.py side by side: one process moves and all others stand still.
use sb_poc.Prelude.{ℕ, String, String_eq, List, ◌≡◌, refl, sym, subst, ℕ_eq, arith, Result}
use sb_poc.Text.{Unicode}
use sb_poc.Float.{Float}
use sb_poc.Config.{Config}
use sb_poc.Metrics.{TurnScore}
use sb_poc.Hashing.{Digest}
use sb_poc.Queue.{Key_eq}
use sb_poc.Store.{Database, Store}
use sb_poc.System.{Pc, idle, Move, crash, System, set_pc}
use sb_poc.System.Alone.{here, then_move}
use sb_poc.System.Rounds.{Goes}

module _ (f : Float) (u : Unicode) (d : Digest)
    (score_texts : List String → Result (List (TurnScore f.F))) (db : Database f.F)
    (cfg : Config f.F) where
  open f use {F}

  -- One process moves, and no other does.
  pub data Alone (i : ℕ) (y : System f u d score_texts db cfg)
      : System f u d score_texts db cfg → Type 0 where
    rest : Alone i y y
    act :
        {z : System f u d score_texts db cfg} {t : Store F} {p : Pc F}
        → Alone i y z
        → Move f u d score_texts db cfg z.tables (z.pc i) t p
        → Alone i y (record { tables = t; pc = set_pc f u d score_texts db cfg i p z.pc })

  -- Where a process gets to while no other moves.
  abbrev pub GetsTo : ℕ → System f u d score_texts db cfg → Store F → Pc F → Type 0
  GetsTo i y t p =
      (z : System f u d score_texts db cfg) × Alone i y z × (z.tables ≡ t) × (z.pc i ≡ p)

  set_pc_self : (i : ℕ) (p : Pc F) (pcs : ℕ → Pc F) → set_pc f u d score_texts db cfg i p pcs i ≡ p
  set_pc_self i p pcs = ground arith

  pub GetsTo-act :
      (i : ℕ) (y : System f u d score_texts db cfg) {s t : Store F} {p q : Pc F}
      → GetsTo i y s p
      → Move f u d score_texts db cfg s p t q
      → GetsTo i y t q
  GetsTo-act i y {s} {t} {p} {q} (z, alone, same, at) move =
      let here : Move f u d score_texts db cfg z.tables (z.pc i) t q =
        subst (λ x. Move f u d score_texts db cfg x (z.pc i) t q) (sym same)
          (subst (λ x. Move f u d score_texts db cfg s x t q) (sym at) move) in
      (
        record { tables = t; pc = set_pc f u d score_texts db cfg i q z.pc },
        act alone here,
        refl,
        set_pc_self i q z.pc,
      )

  pub GetsTo-Goes :
      (i : ℕ) (y : System f u d score_texts db cfg) {s : Store F} {p : Pc F} {t : Store F}
      {q : Pc F}
      → GetsTo i y s p
      → Goes f u d score_texts db cfg s p t q
      → GetsTo i y t q
  GetsTo-Goes i y g here = g
  GetsTo-Goes i y g (then_move m step) = GetsTo-act i y (GetsTo-Goes i y g m) step

  -- A process ends and is started again.
  pub restarted : (i : ℕ) (y : System f u d score_texts db cfg) → GetsTo i y y.tables idle
  restarted i y = GetsTo-act i y (y, rest, refl, refl) crash
