-- ===== src/Kernel/Banquero/Equivalencia.antt =====
-- banquero_estado_seguro decides whether the state is safe.
use recursos_so.Prelude.{
  ℕ, ◌+◌, ◌<◌, ◌≤◌, ◌≡◌, ◌↔◌, refl, sym, ap, ◌∙◌, subst, inl, inr, Bool, true, false, List, [], map,
  some, if◌then◌else◌, length, get_or, set, replicate, length-set, length-replicate, arith, All,
  Bool-cases,
}
use recursos_so.Kernel.{Recurso, Kernel}
use recursos_so.Kernel.Banquero.{
  fila_asignado, en_cola, fila_necesidad, es_block, puede, sumar, activos, asignados, necesidades,
  banquero_estado_seguro,
}
use recursos_so.Kernel.Banquero.Colas.{en_cola_iff, es_block_iff}
use recursos_so.Kernel.Banquero.Segura.{Segura, lt-length_of_pendiente}
use recursos_so.Kernel.Banquero.Decide.{banquero_matrices}
use recursos_so.Kernel.Banquero.Seguro.{Pide, cuantas, PuedenTerminar, Distintos}
use recursos_so.Kernel.Banquero.Matrices.{
  map-igual, fila-map, ceros-map, sumar-map, necesidad-map, puede-map, All-igual, get_or-map,
}

uno_si : (b : Bool) (n : ℕ) → ((if b then 1 else 0) ≤ n) ↔ (b ≡ true → 0 < n)
uno_si true n = ((λ l e. omega arith), (λ f. let l = f refl in omega arith))
uno_si false n = ((λ l e. absurd (cc e)), (λ f. omega arith))

module _ (k : Kernel) (d : Distintos k.recursos) where
  abbrev fila : ℕ → List ℕ
  fila p = fila_asignado k.recursos (k.pcbs p).recursos_adquiridos (replicate (length k.recursos) 0)

  abbrev pedido : ℕ → List ℕ
  pedido p =
      if es_block (k.pcbs p).estado
      then fila_necesidad k.pcbs k.recursos (k.pcbs p).pid
      else replicate (length k.recursos) 0

  -- What is free once the process has ended.
  sumar-fila :
      (libre : Recurso → ℕ) (p : ℕ)
      → sumar (map libre k.recursos) (fila p)
        ≡ map (λ r. libre r + cuantas r.nombre (k.pcbs p).recursos_adquiridos) k.recursos
  sumar-fila libre p =
      let nombres = (k.pcbs p).recursos_adquiridos in
      ap (λ x. sumar (map libre k.recursos) (fila_asignado k.recursos nombres x))
        (ceros-map k.recursos)
      ∙ (ap (sumar (map libre k.recursos)) (fila-map k.recursos d nombres (λ r. 0))
          ∙ (sumar-map libre (λ r. 0 + cuantas r.nombre nombres) k.recursos
              ∙ map-igual _ _ (λ r. omega arith) k.recursos))

  -- The row fits exactly where each resource that is asked for is free.
  pedido_iff :
      (libre : Recurso → ℕ) (p : ℕ)
      → (puede (pedido p) (map libre k.recursos) ≡ true)
        ↔ All (λ r. Pide k p r → 0 < libre r) k.recursos
  pedido_iff libre p =
      let b = es_block_iff (k.pcbs p).estado in
      elim (Bool-cases (es_block (k.pcbs p).estado)) [
        | inl e ↦
            let cabe =
              puede-map (λ r. if en_cola k.pcbs (k.pcbs p).pid r.cola_bloqueados then 1 else 0)
                libre k.recursos in
            let igual =
              All-igual
                (λ r. (if en_cola k.pcbs (k.pcbs p).pid r.cola_bloqueados then 1 else 0) ≤ libre r)
                (λ r. Pide k p r → 0 < libre r)
                (λ r.
                  let c = en_cola_iff k.pcbs (k.pcbs p).pid r.cola_bloqueados in
                  let u = uno_si (en_cola k.pcbs (k.pcbs p).pid r.cola_bloqueados) (libre r) in
                  ((λ f (_, g). u.0 f (c.1 g)), (λ f. u.1 (λ g. f (b.0 e, c.0 g)))))
                k.recursos in
            rw (e, necesidad-map k.pcbs k.recursos (k.pcbs p).pid)
              ((λ f. igual.0 (cabe.0 f)), (λ a. cabe.1 (igual.1 a)))
        | inr e ↦
            let cabe = puede-map (λ r. 0) libre k.recursos in
            let igual =
              All-igual (λ r. 0 ≤ libre r) (λ r. Pide k p r → 0 < libre r)
                (λ r. ((λ f (g, _). absurd (cc (b.1 g, e))), (λ f. omega arith))) k.recursos in
            rw (e, ceros-map k.recursos) ((λ f. igual.0 (cabe.0 f)), (λ a. cabe.1 (igual.1 a)))
      ]

  asignados-fila :
      (i : ℕ) → i < length (activos k) → get_or (asignados k) i [] ≡ fila (get_or (activos k) i 0)
  asignados-fila i l = get_or-map fila (activos k) i l

  necesidades-pedido :
      (i : ℕ)
      → i < length (activos k)
      → get_or (necesidades k) i [] ≡ pedido (get_or (activos k) i 0)
  necesidades-pedido i l = get_or-map pedido (activos k) i l

  hacia :
      (work : List ℕ) (terminado : List Bool) (libre : Recurso → ℕ)
      → work ≡ map libre k.recursos
      → length terminado ≡ length (activos k)
      → Segura (asignados k) (necesidades k) work terminado
      → PuedenTerminar k libre terminado
  hacia work terminado libre w t (Segura.fin f) = PuedenTerminar.todos f
  hacia work terminado libre w t (Segura.termina i pend ok resto) =
      let q = get_or (activos k) i 0 in
      let l : i < length (activos k) = omega (arith, t, lt-length_of_pendiente terminado i pend) in
      PuedenTerminar.uno i pend
        ((pedido_iff libre q).0 (
          subst (λ x. puede x (map libre k.recursos) ≡ true) (necesidades-pedido i l)
            (subst (λ x. puede (get_or (necesidades k) i []) x ≡ true) w ok)))
        (hacia _ (set terminado i true) _
          (ap (λ x. sumar x (get_or (asignados k) i [])) w
            ∙ (ap (sumar (map libre k.recursos)) (asignados-fila i l) ∙ sumar-fila libre q))
          (length-set terminado i true ∙ t) resto)

  desde :
      (terminado : List Bool) (libre : Recurso → ℕ) (work : List ℕ)
      → work ≡ map libre k.recursos
      → length terminado ≡ length (activos k)
      → PuedenTerminar k libre terminado
      → Segura (asignados k) (necesidades k) work terminado
  desde terminado libre work w t (PuedenTerminar.todos f) = Segura.fin f
  desde terminado libre work w t (PuedenTerminar.uno i pend ok resto) =
      let q = get_or (activos k) i 0 in
      let l : i < length (activos k) = omega (arith, t, lt-length_of_pendiente terminado i pend) in
      Segura.termina i pend
        (subst (λ x. puede (get_or (necesidades k) i []) x ≡ true) (sym w)
          (subst (λ x. puede x (map libre k.recursos) ≡ true) (sym (necesidades-pedido i l))
            ((pedido_iff libre q).1 ok)))
        (desde (set terminado i true) _ _
          (ap (λ x. sumar x (get_or (asignados k) i [])) w
            ∙ (ap (sumar (map libre k.recursos)) (asignados-fila i l) ∙ sumar-fila libre q))
          (length-set terminado i true ∙ t) resto)

-- In every state of the kernel in which no two resources have the same name, the banker's check returns,
-- and it returns true exactly when the active processes can end one after the other: each one when every
-- resource in whose queue it is blocked has a free instance by then, and each giving back all the
-- instances it holds.
pub banquero_decide :
    (k : Kernel)
    → Distintos k.recursos
    → (b : Bool) × (banquero_estado_seguro k ≡ some b)
      × ((b ≡ true) ↔ PuedenTerminar k (λ r. r.instancias) (replicate (length (activos k)) false))
banquero_decide k d =
    let (b, e, ok) = banquero_matrices k in
    let t = length-replicate (length (activos k)) false in
    (
      b,
      e,
      (
        (λ f. hacia k d _ _ (λ r. r.instancias) refl t (ok.0 f)),
        (λ f. ok.1 (desde k d _ (λ r. r.instancias) _ refl t f)),
      ),
    )
