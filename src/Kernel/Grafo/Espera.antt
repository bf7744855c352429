-- ===== src/Kernel/Grafo/Espera.antt =====
-- What it is for a process to wait for another, and what a deadlock is, said of the PCBs and the
-- resources, without the graph of grafo_espera.c.
use recursos_so.Prelude.{ℕ, suc, ◌≡◌, ◌≢◌, List, ◌∷◌, String, Alguno}
use recursos_so.Kernel.{Estado, Pcb, Recurso, Kernel}
use recursos_so.Kernel.Banquero.{activos}

module _ (h : ℕ → Pcb) where
  -- A process of the queue has the pid.
  abbrev pub Encolado : ℕ → Recurso → Type 0
  Encolado pid r = Alguno (λ b. (h b).pid ≡ pid) r.cola_bloqueados

  -- The first resource in whose queue the pid is.
  pub data PrimeraCola (pid : ℕ) : List Recurso → Recurso → Type 0 where
    en_esta : {r : Recurso} {rs : List Recurso} → Encolado pid r → PrimeraCola pid (r ∷ rs) r
    otra :
        {r r' : Recurso} {rs : List Recurso}
        → (¬ Encolado pid r)
        → PrimeraCola pid rs r'
        → PrimeraCola pid (r ∷ rs) r'

  -- The place of the first process with the pid.
  pub data Lugar (pid : ℕ) : List ℕ → ℕ → Type 0 where
    este : {p : ℕ} {ps : List ℕ} → (h p).pid ≡ pid → Lugar pid (p ∷ ps) 0
    siguiente :
        {p i : ℕ} {ps : List ℕ} → (h p).pid ≢ pid → Lugar pid ps i → Lugar pid (p ∷ ps) (suc i)

  abbrev pub Posee : String → ℕ → Type 0
  Posee nombre q = Alguno (λ res. res ≡ nombre) (h q).recursos_adquiridos

-- The process `p` waits for the one in place `j`: it is blocked, and that one has the pid of another
-- process that holds the resource in whose queue `p` is.
pub record Aguarda (k : Kernel) (p j : ℕ) : Type 0 where
  pub bloqueado : (k.pcbs p).estado ≡ Estado.block
  pub recurso : Recurso
  pub en_su_cola : PrimeraCola k.pcbs (k.pcbs p).pid k.recursos recurso
  pub poseedor :
      Alguno
        (λ q.
          Posee k.pcbs recurso.nombre q
          × ((k.pcbs q).pid ≢ (k.pcbs p).pid)
          × Lugar k.pcbs (k.pcbs q).pid (activos k) j)
        (activos k)

-- The active process in place `i`, if any, waits for the one in place `j`.
pub data Arista (k : Kernel) (j : ℕ) : List ℕ → ℕ → Type 0 where
  cabeza : {p : ℕ} {ps : List ℕ} → Aguarda k p j → Arista k j (p ∷ ps) 0
  cola : {p i : ℕ} {ps : List ℕ} → Arista k j ps i → Arista k j (p ∷ ps) (suc i)

-- A chain of processes, each of which waits for the next.
pub data Cadena (k : Kernel) : ℕ → ℕ → Type 0 where
  una : {i j : ℕ} → Arista k j (activos k) i → Cadena k i j
  mas : {i j l : ℕ} → Arista k j (activos k) i → Cadena k j l → Cadena k i l

-- Some process waits, through others, for itself.
abbrev pub Abrazo : Kernel → Type 0
Abrazo k = (i : ℕ) × Cadena k i i
