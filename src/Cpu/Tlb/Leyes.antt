-- ===== src/Cpu/Tlb/Leyes.antt =====
-- tlb_lookup, tlb_update and tlb_clear_pid: the size of the TLB, and what is found in it.
use recursos_so.Prelude.{
  ℕ, zero, suc, ◌+◌, ◌<◌, ◌≤◌, ◌≡◌, refl, sym, ap, false, List, [], ◌∷◌, ◌++◌, none, some, ltb,
  if◌then◌else◌, length, set, arith, subst, length-set, length-append, Bool-cases, Option-cases,
  inl, inr,
}
use recursos_so.Cpu.Tlb.{
  Entrada, Tlb, es_de, buscar_entrada, tlb_lookup, elegir_victima, victima, fifo_siguiente,
  tlb_update, sin_pid, tlb_clear_pid,
}
use recursos_so.Cpu.Tlb.Victima.{elegir_victima-MenosUsada}

-- There is room for an entry, no more entries than room, and the next victim of FIFO is inside.
pub record IsValida (t : Tlb) : Type 0 where
  pub con_lugar : 0 < t.max
  pub acotada : length t.entradas ≤ t.max
  pub puntero : t.fifo_ptr < t.max

length-buscar_entrada :
    (ahora pid pagina : ℕ) (es : List Entrada) (marco : ℕ) (es1 : List Entrada)
    → buscar_entrada ahora pid pagina es ≡ some (marco, es1)
    → length es1 ≡ length es
unfolding buscar_entrada
length-buscar_entrada ahora pid pagina [] marco es1 h = ground arith
length-buscar_entrada ahora pid pagina (e ∷ es) marco es1 h =
    elim (Bool-cases (es_de pid pagina e)) [
      | inl hit ↦ ground arith
      | inr miss ↦ elim (Option-cases (buscar_entrada ahora pid pagina es)) [
        | inl nada ↦ ground arith
        | inr ((m, es2), si) ↦ ground (arith, length-buscar_entrada ahora pid pagina es m es2 si)
      ]
    ]

length-sin_pid : (pid : ℕ) (es : List Entrada) → length (sin_pid pid es) ≤ length es
unfolding sin_pid
length-sin_pid pid [] = omega arith
length-sin_pid pid (e ∷ es) = ground (arith, length-sin_pid pid es)

buscar_entrada-append :
    (ahora pid pagina : ℕ) (es : List Entrada) (n : Entrada)
    → n.pid ≡ pid
    → n.pagina ≡ pagina
    → buscar_entrada ahora pid pagina es ≡ none
    → (es1 : List Entrada) × (buscar_entrada ahora pid pagina (es ++ n ∷ []) ≡ some (n.marco, es1))
unfolding buscar_entrada
buscar_entrada-append ahora pid pagina [] n p q h =
    (record n { last_use = ahora } ∷ [], ground arith)
buscar_entrada-append ahora pid pagina (e ∷ es) n p q h = elim (Bool-cases (es_de pid pagina e)) [
  | inl hit ↦ ground arith
  | inr miss ↦ elim (Option-cases (buscar_entrada ahora pid pagina es)) [
    | inl nada ↦
        let (es1, si) = buscar_entrada-append ahora pid pagina es n p q nada in
        (e ∷ es1, rw (miss, si) refl)
    | inr (x, si) ↦ ground arith
  ]
]

buscar_entrada-set :
    (ahora pid pagina : ℕ) (es : List Entrada) (v : ℕ) (n : Entrada)
    → n.pid ≡ pid
    → n.pagina ≡ pagina
    → v < length es
    → buscar_entrada ahora pid pagina es ≡ none
    → (es1 : List Entrada) × (buscar_entrada ahora pid pagina (set es v n) ≡ some (n.marco, es1))
unfolding buscar_entrada
buscar_entrada-set ahora pid pagina [] v n p q l h = elim l [ ]
buscar_entrada-set ahora pid pagina (e ∷ es) zero n p q l h =
    (record n { last_use = ahora } ∷ es, ground arith)
buscar_entrada-set ahora pid pagina (e ∷ es) (suc v) n p q l h =
    elim (Bool-cases (es_de pid pagina e)) [
      | inl hit ↦ ground arith
      | inr miss ↦ elim (Option-cases (buscar_entrada ahora pid pagina es)) [
        | inl nada ↦
            let (es1, si) = buscar_entrada-set ahora pid pagina es v n p q (omega arith) nada in
            (e ∷ es1, rw (miss, si) refl)
        | inr (x, si) ↦ ground arith
      ]
    ]

-- tlb_lookup from what its loop finds.
tlb_lookup-acierto :
    (pid pagina : ℕ) (t : Tlb) (marco : ℕ) (es : List Entrada)
    → buscar_entrada (t.clock_lru + 1) pid pagina t.entradas ≡ some (marco, es)
    → (tlb_lookup pid pagina t).0 ≡ some marco
unfolding tlb_lookup
tlb_lookup-acierto pid pagina t marco es h = rw (h, tlb_lookup) refl

pub no_esta :
    (pid pagina ahora : ℕ) (es : List Entrada) (otro : ℕ)
    → buscar_entrada ahora pid pagina es ≡ none
    → buscar_entrada otro pid pagina es ≡ none
unfolding buscar_entrada
no_esta pid pagina ahora [] otro h = refl
no_esta pid pagina ahora (e ∷ es) otro h = elim (Bool-cases (es_de pid pagina e)) [
  | inl hit ↦ ground arith
  | inr miss ↦ elim (Option-cases (buscar_entrada ahora pid pagina es)) [
    | inl nada ↦ ground (arith, no_esta pid pagina ahora es otro nada)
    | inr (x, si) ↦ ground arith
  ]
]

tlb_lookup-fallo :
    (pid pagina : ℕ) (t : Tlb)
    → (tlb_lookup pid pagina t).0 ≡ none
    → buscar_entrada (t.clock_lru + 1) pid pagina t.entradas ≡ none
tlb_lookup-fallo pid pagina t h =
    elim (Option-cases (buscar_entrada (t.clock_lru + 1) pid pagina t.entradas)) [
      | inl nada ↦ nada
      | inr ((marco, es), si) ↦ cc (tlb_lookup-acierto pid pagina t marco es si)
    ]

hay_entradas : (n m : ℕ) → ltb n m ≡ false → 0 < m → 0 < n
hay_entradas n m h l = ground arith

victima-dentro :
    (t : Tlb) → IsValida t → ltb (length t.entradas) t.max ≡ false → victima t < length t.entradas
unfolding victima
victima-dentro t v lleno =
    let n = length t.entradas in
    elim (Bool-cases t.lru) [
      | inl l ↦
          let e : (if t.lru then elegir_victima t else t.fifo_ptr) ≡ elegir_victima t =
            ap (λ b. if b then elegir_victima t else t.fifo_ptr) l in
          subst (λ x. x < n) (sym e)
            (elegir_victima-MenosUsada t l (hay_entradas n t.max lleno v.con_lugar)).dentro
      | inr l ↦
          let e : (if t.lru then elegir_victima t else t.fifo_ptr) ≡ t.fifo_ptr =
            ap (λ b. if b then elegir_victima t else t.fifo_ptr) l in
          subst (λ x. x < n) (sym e) (ground (arith, v.puntero))
    ]

fifo_siguiente-lt : (t : Tlb) → IsValida t → fifo_siguiente t < t.max
unfolding fifo_siguiente
fifo_siguiente-lt t v = elim (Bool-cases t.lru) [
  | inl l ↦ ground (arith, v.puntero)
  | inr l ↦ grind (arith, v.con_lugar)
]

-- In a TLB with room for an entry, no more entries than room and its FIFO victim inside, that does not
-- have the page: after tlb_update the page is found with its frame, whether there was room or an entry
-- went, with LRU and with FIFO.
pub tlb_lookup-tlb_update :
    (pid pagina marco : ℕ) (t : Tlb)
    → IsValida t
    → (tlb_lookup pid pagina t).0 ≡ none
    → (tlb_lookup pid pagina (tlb_update pid pagina marco t)).0 ≡ some marco
unfolding tlb_update
tlb_lookup-tlb_update pid pagina marco t v h =
    let nueva : Entrada = record {
      pid = pid;
      pagina = pagina;
      marco = marco;
      last_use = t.clock_lru + 1;
    } in
    let ahora = t.clock_lru + 1 + 1 in
    let nada =
      no_esta pid pagina (t.clock_lru + 1) t.entradas ahora (tlb_lookup-fallo pid pagina t h) in
    elim (Bool-cases (ltb (length t.entradas) t.max)) [
      | inl lugar ↦
          let (es, si) = buscar_entrada-append ahora pid pagina t.entradas nueva refl refl nada in
          rw lugar (
            tlb_lookup-acierto pid pagina
              (record t { entradas = t.entradas ++ nueva ∷ []; clock_lru = t.clock_lru + 1 }) marco
              es si)
      | inr lleno ↦
          let (es, si) =
            buscar_entrada-set ahora pid pagina t.entradas (victima t) nueva refl refl
              (victima-dentro t v lleno) nada in
          rw lleno (
            tlb_lookup-acierto pid pagina
              (record t {
                entradas = set t.entradas (victima t) nueva;
                clock_lru = t.clock_lru + 1;
                fifo_ptr = fifo_siguiente t;
              })
              marco es si)
    ]

pub tlb_update-IsValida :
    (pid pagina marco : ℕ) (t : Tlb) → IsValida t → IsValida (tlb_update pid pagina marco t)
unfolding tlb_update
tlb_update-IsValida pid pagina marco t v =
    let nueva : Entrada = record {
      pid = pid;
      pagina = pagina;
      marco = marco;
      last_use = t.clock_lru + 1;
    } in
    elim (Bool-cases (ltb (length t.entradas) t.max)) [
      | inl lugar ↦ rw lugar (record {
        con_lugar = v.con_lugar;
        acotada = ground (arith, length-append t.entradas (nueva ∷ []));
        puntero = v.puntero;
      })
      | inr lleno ↦ rw lleno (record {
        con_lugar = v.con_lugar;
        acotada = omega (arith, v.acotada, length-set t.entradas (victima t) nueva);
        puntero = fifo_siguiente-lt t v;
      })
    ]

pub tlb_lookup-IsValida :
    (pid pagina : ℕ) (t : Tlb) → IsValida t → IsValida (tlb_lookup pid pagina t).1
unfolding tlb_lookup
tlb_lookup-IsValida pid pagina t v =
    let ahora = t.clock_lru + 1 in
    elim (Option-cases (buscar_entrada ahora pid pagina t.entradas)) [
      | inl nada ↦ rw (nada, tlb_lookup) v
      | inr ((marco, es), si) ↦
          rw (si, tlb_lookup)
            (record {
              con_lugar = v.con_lugar;
              acotada =
                  omega (
                    arith,
                    v.acotada,
                    length-buscar_entrada ahora pid pagina t.entradas marco es si,
                  );
              puntero = v.puntero;
            })
    ]

pub tlb_clear_pid-IsValida : (pid : ℕ) (t : Tlb) → IsValida t → IsValida (tlb_clear_pid pid t)
unfolding tlb_clear_pid
tlb_clear_pid-IsValida pid t v = record {
  con_lugar = v.con_lugar;
  acotada = omega (arith, v.acotada, length-sin_pid pid t.entradas);
  puntero = v.puntero;
}
