-- ===== src/Kernel/Grafo/Bloqueados.antt =====
-- grafo_espera.c: a cycle of the wait-for graph goes through two processes that wait for a resource.
use recursos_so.Prelude.{
  ℕ, zero, suc, ◌≤◌, ◌≡◌, ◌≢◌, refl, sym, ◌∙◌, ap, subst, ◌⊎◌, inl, inr, List, [], ◌∷◌, map, none,
  some, arith, get_or, All, Bool-cases, Option-cases, ◌==◌, ==_iff,
}
use recursos_so.Kernel.{Kernel}
use recursos_so.Kernel.Banquero.{activos, es_block}
use recursos_so.Kernel.Grafo.{
  Nodo, nodo_vacio, indice, sin_el_mismo, nodo_de, bloqueados, nodos_de, buscar_recurso_esperado,
  buscar_poseedores,
}
use recursos_so.Kernel.Grafo.Caminos.{primera, Llega, Espera, Camino}
use recursos_so.Kernel.Grafo.Dfs.{Ciclo}

-- A node that waits for nothing has no edge, and no node has an edge to its own pid.
record Bien (n : Nodo) : Type 0 where
  sin_recurso : n.recurso_esperado ≡ none → n.espera_a ≡ []
  ajenos : All (λ d. d ≢ n.pid) n.espera_a

sin_el_mismo-ajenos : (pid : ℕ) (qs : List ℕ) → All (λ d. d ≢ pid) (sin_el_mismo pid qs)
unfolding sin_el_mismo
sin_el_mismo-ajenos pid [] = tt
sin_el_mismo-ajenos pid (q ∷ qs) = elim (Bool-cases (q == pid)) [
  | inl e ↦ rw (e, sin_el_mismo) (sin_el_mismo-ajenos pid qs)
  | inr e ↦ rw (e, sin_el_mismo) (ground arith, sin_el_mismo-ajenos pid qs)
]

nodo_de-Bien : (k : Kernel) (todos : List ℕ) (p : ℕ) → Bien (nodo_de k todos p)
unfolding nodo_de
nodo_de-Bien k todos p = elim (Bool-cases (es_block (k.pcbs p).estado)) [
  | inl e ↦ elim (Option-cases (buscar_recurso_esperado k.pcbs (k.pcbs p).pid k.recursos)) [
    | inl f ↦ rw (e, f, nodo_de) (record { sin_recurso = λ h. refl; ajenos = tt })
    | inr (r, f) ↦
        rw (e, f, nodo_de)
          (record {
            sin_recurso = λ h. absurd (cc h);
            ajenos = sin_el_mismo-ajenos (k.pcbs p).pid (buscar_poseedores k.pcbs r todos);
          })
  ]
  | inr e ↦ rw (e, nodo_de) (record { sin_recurso = λ h. refl; ajenos = tt })
]

nodos-Bien :
    (k : Kernel) (todos ps : List ℕ) (i : ℕ) → Bien (get_or (map (nodo_de k todos) ps) i nodo_vacio)
nodos-Bien k todos [] i = record { sin_recurso = λ h. refl; ajenos = tt }
nodos-Bien k todos (p ∷ ps) zero = nodo_de-Bien k todos p
nodos-Bien k todos (p ∷ ps) (suc i) = nodos-Bien k todos ps i

indice-pid :
    (ns : List Nodo) (pid i : ℕ) → indice ns pid ≡ some i → (get_or ns i nodo_vacio).pid ≡ pid
unfolding indice
indice-pid [] pid i h = absurd (cc h)
indice-pid (n ∷ ns) pid zero h = elim (Bool-cases (n.pid == pid)) [
  | inl e ↦ (==_iff n.pid pid).0 e
  | inr e ↦ elim (Option-cases (indice ns pid)) [ inl f ↦ ground arith | inr (j, f) ↦ ground arith ]
]
indice-pid (n ∷ ns) pid (suc i) h = elim (Bool-cases (n.pid == pid)) [
  | inl e ↦ ground arith
  | inr e ↦
      let r : indice ns pid ≡ some i = elim (Option-cases (indice ns pid)) [
        | inl f ↦ ground arith
        | inr (j, f) ↦ ground arith
      ] in
      indice-pid ns pid i r
]

-- An edge goes to another node.
Llega-otro :
    (ns : List Nodo) (pid j : ℕ) (ds : List ℕ)
    → All (λ d. d ≢ pid) ds
    → Llega ns ds j
    → (get_or ns j nodo_vacio).pid ≢ pid
Llega-otro ns pid j [] a l = elim l [ ]
Llega-otro ns pid j (d ∷ ds) (a, as') (Llega.aqui e) = λ h. a (sym (indice-pid ns d j e) ∙ h)
Llega-otro ns pid j (d ∷ ds) (a, as') (Llega.luego l) = Llega-otro ns pid j ds as' l

con_recurso :
    (ns : List Nodo) (i j : ℕ)
    → Bien (get_or ns i nodo_vacio)
    → Espera ns i j
    → (get_or ns i nodo_vacio).recurso_esperado ≢ none
con_recurso ns i j b l h = elim (subst (λ x. Llega ns x j) (b.sin_recurso h) l) [ ]

uno :
    (ns : List Nodo) (i : ℕ) → (get_or ns i nodo_vacio).recurso_esperado ≢ none → 1 ≤ bloqueados ns
unfolding bloqueados
uno [] i h = absurd (h refl)
uno (n ∷ ns) zero h = elim (Option-cases n.recurso_esperado) [
  | inl e ↦ absurd (h e)
  | inr (r, e) ↦ rw (e, bloqueados) (omega arith)
]
uno (n ∷ ns) (suc i) h =
    let r = uno ns i h in
    elim (Option-cases n.recurso_esperado) [
      | inl e ↦ rw (e, bloqueados) r
      | inr (x, e) ↦ rw (e, bloqueados) (omega arith)
    ]

dos :
    (ns : List Nodo) (i j : ℕ)
    → i ≢ j
    → (get_or ns i nodo_vacio).recurso_esperado ≢ none
    → (get_or ns j nodo_vacio).recurso_esperado ≢ none
    → 2 ≤ bloqueados ns
unfolding bloqueados
dos [] i j ne h f = absurd (h refl)
dos (n ∷ ns) zero zero ne h f = absurd (ne refl)
dos (n ∷ ns) zero (suc j) ne h f = elim (Option-cases n.recurso_esperado) [
  | inl e ↦ absurd (h e)
  | inr (r, e) ↦ rw (e, bloqueados) (omega (arith, uno ns j f))
]
dos (n ∷ ns) (suc i) zero ne h f = elim (Option-cases n.recurso_esperado) [
  | inl e ↦ absurd (f e)
  | inr (r, e) ↦ rw (e, bloqueados) (omega (arith, uno ns i h))
]
dos (n ∷ ns) (suc i) (suc j) ne h f =
    let r = dos ns i j (λ e. ne (ap suc e)) h f in
    elim (Option-cases n.recurso_esperado) [
      | inl e ↦ rw (e, bloqueados) r
      | inr (x, e) ↦ rw (e, bloqueados) (omega arith)
    ]

-- The second node of a path that comes back to its start waits too.
segunda :
    (ns : List Nodo) (i j : ℕ)
    → Camino ns i j
    → Espera ns i j ⊎ ((k : ℕ) × (l : ℕ) × Espera ns i k × Espera ns k l)
segunda ns i j (Camino.paso e) = inl e
segunda ns i j (Camino.sigue {j = k} e c) = let (l, f) = primera ns k j c in inr (k, l, e, f)

pub Ciclo-bloqueados : (k : Kernel) → Ciclo (nodos_de k) → 2 ≤ bloqueados (nodos_de k)
Ciclo-bloqueados k (i, c) =
    let ns = nodos_de k in
    let bien = nodos-Bien k (activos k) (activos k) in
    let otro : (j : ℕ) → Espera ns i j → i ≢ j = λ j e h.
      Llega-otro ns (get_or ns i nodo_vacio).pid j _ (bien i).ajenos e
        (ap (λ x. (get_or ns x nodo_vacio).pid) (sym h)) in
    elim (segunda ns i i c) [
      | inl e ↦ absurd (otro i e refl)
      | inr (j, l, e, f) ↦
          dos ns i j (otro j e) (con_recurso ns i j (bien i) e) (con_recurso ns j l (bien j) f)
    ]
