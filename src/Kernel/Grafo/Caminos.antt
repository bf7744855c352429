-- ===== src/Kernel/Grafo/Caminos.antt =====
-- grafo_espera.c: the edges and paths of the wait-for graph, and what the marks of the search say of them.
use recursos_so.Prelude.{
  ℕ, zero, suc, ◌≤◌, ◌<◌, ◌≡◌, ◌≢◌, refl, sym, ◌∙◌, ap, subst, ◌⊎◌, inl, inr, List, [], ◌∷◌, some,
  arith, length, get_or, set, get_or-set_self, get_or-set_ne, ℕ_discrete, Option-cases,
}
use recursos_so.Kernel.Grafo.{Nodo, indice, Marca, Busqueda, marca, marcar, nodo_vacio}

-- Some pid of the list is that of the node `j`.
pub data Llega (nodos : List Nodo) : List ℕ → ℕ → Type 0 where
  aqui : {d j : ℕ} {ds : List ℕ} → indice nodos d ≡ some j → Llega nodos (d ∷ ds) j
  luego : {d j : ℕ} {ds : List ℕ} → Llega nodos ds j → Llega nodos (d ∷ ds) j

pub Llega-nil {ℓ} : {A : Type ℓ} (nodos : List Nodo) (j : ℕ) → Llega nodos [] j → A
Llega-nil nodos j l = elim l [ ]

pub Llega-cases :
    (nodos : List Nodo) (d j : ℕ) (ds : List ℕ)
    → Llega nodos (d ∷ ds) j
    → (indice nodos d ≡ some j) ⊎ Llega nodos ds j
Llega-cases nodos d j ds (Llega.aqui e) = inl e
Llega-cases nodos d j ds (Llega.luego l) = inr l

pub indice-rango : (nodos : List Nodo) (pid i : ℕ) → indice nodos pid ≡ some i → i < length nodos
unfolding indice
indice-rango [] pid i h = absurd (cc h)
indice-rango (nodo ∷ nodos) pid i h = elim (Option-cases (indice nodos pid)) [
  | inl nada ↦ ground arith
  | inr (j, e) ↦ let r = indice-rango nodos pid j e in ground arith
]

-- The process of the first node waits for one of the second, in one step or several.
abbrev pub Espera : List Nodo → ℕ → ℕ → Type 0
Espera nodos i j = Llega nodos (get_or nodos i nodo_vacio).espera_a j

pub data Camino (nodos : List Nodo) : ℕ → ℕ → Type 0 where
  paso : {i j : ℕ} → Espera nodos i j → Camino nodos i j
  sigue : {i j k : ℕ} → Espera nodos i j → Camino nodos j k → Camino nodos i k

pub primera : (ns : List Nodo) (i j : ℕ) → Camino ns i j → (k : ℕ) × Espera ns i k
primera ns i j (Camino.paso e) = (j, e)
primera ns i j (Camino.sigue {j = k} e c) = (k, e)

pub agregar :
    (nodos : List Nodo) (i j k : ℕ) → Camino nodos i j → Espera nodos j k → Camino nodos i k
agregar nodos i j k (Camino.paso e) f = Camino.sigue e (Camino.paso f)
agregar nodos i j k (Camino.sigue {j = h} e c) f = Camino.sigue e (agregar nodos h j k c f)

-- The nodes that the search has not visited.
unfoldable pub blancos : List Marca → ℕ
blancos [] = 0
blancos (Marca.no_visitado ∷ es) = suc (blancos es)
blancos (Marca.en_pila ∷ es) = blancos es
blancos (Marca.completado ∷ es) = blancos es

pub blancos-set :
    (es : List Marca) (i : ℕ)
    → i < length es
    → get_or es i Marca.no_visitado ≡ Marca.no_visitado
    → suc (blancos (set es i Marca.en_pila)) ≡ blancos es
unfolding blancos
blancos-set [] i l h = elim l [ ]
blancos-set (Marca.no_visitado ∷ es) zero l h = refl
blancos-set (Marca.en_pila ∷ es) zero l h = cc
blancos-set (Marca.completado ∷ es) zero l h = cc
blancos-set (Marca.no_visitado ∷ es) (suc i) l h = ap suc (blancos-set es i (omega arith) h)
blancos-set (Marca.en_pila ∷ es) (suc i) l h = blancos-set es i (omega arith) h
blancos-set (Marca.completado ∷ es) (suc i) l h = blancos-set es i (omega arith) h

pub blancos-completar : (es : List Marca) (i : ℕ) → blancos (set es i Marca.completado) ≤ blancos es
unfolding blancos
blancos-completar [] i = omega arith
blancos-completar (Marca.no_visitado ∷ es) zero = omega arith
blancos-completar (Marca.en_pila ∷ es) zero = omega arith
blancos-completar (Marca.completado ∷ es) zero = omega arith
blancos-completar (Marca.no_visitado ∷ es) (suc i) = omega (arith, blancos-completar es i)
blancos-completar (Marca.en_pila ∷ es) (suc i) = blancos-completar es i
blancos-completar (Marca.completado ∷ es) (suc i) = blancos-completar es i

pub blancos-largo : (es : List Marca) → blancos es ≤ length es
unfolding blancos
blancos-largo [] = omega arith
blancos-largo (Marca.no_visitado ∷ es) = omega (arith, blancos-largo es)
blancos-largo (Marca.en_pila ∷ es) = omega (arith, blancos-largo es)
blancos-largo (Marca.completado ∷ es) = omega (arith, blancos-largo es)

-- Where `i` gets the mark `v`: the mark of `j` is `v`, or what it was and `j` is another node.
pub marca-marcar :
    (i j : ℕ) (v : Marca) (b : Busqueda)
    → i < length b.estado
    → ((i ≡ j) × (marca (marcar i v b) j ≡ v)) ⊎ ((i ≢ j) × (marca (marcar i v b) j ≡ marca b j))
marca-marcar i j v b l = elim (ℕ_discrete i j) [
  | yes e ↦ inl (
    e,
    subst (λ x. marca (marcar i v b) x ≡ v) e (get_or-set_self b.estado i v Marca.no_visitado l),
  )
  | no ne ↦ inr (ne, get_or-set_ne b.estado i j v Marca.no_visitado ne)
]

-- What a completed node waits for is completed, and no completed node is on a cycle.
abbrev pub Cerrada : List Nodo → Busqueda → Type 0
Cerrada nodos b =
    (i : ℕ)
    → marca b i ≡ Marca.completado
    → ((j : ℕ) → Espera nodos i j → marca b j ≡ Marca.completado) × (¬ Camino nodos i i)

-- What a node reaches is completed if the nodes it waits for are.
alcanza_completados :
    (nodos : List Nodo) (b : Busqueda) (i j : ℕ)
    → Cerrada nodos b
    → ((k : ℕ) → Espera nodos i k → marca b k ≡ Marca.completado)
    → Camino nodos i j
    → marca b j ≡ Marca.completado
alcanza_completados nodos b i j c h (Camino.paso e) = h j e
alcanza_completados nodos b i j c h (Camino.sigue {j = k} e s) =
    alcanza_completados nodos b k j c (c k (h k e)).0 s

-- A node that is not completed can be: what it waits for is.
pub Cerrada-completar :
    (nodos : List Nodo) (b : Busqueda) (i : ℕ)
    → i < length b.estado
    → marca b i ≢ Marca.completado
    → ((j : ℕ) → Espera nodos i j → marca b j ≡ Marca.completado)
    → Cerrada nodos b
    → Cerrada nodos (marcar i Marca.completado b)
Cerrada-completar nodos b i l no_esta hijos c =
    let crece : (j : ℕ)
        → marca b j ≡ Marca.completado
        → marca (marcar i Marca.completado b) j ≡ Marca.completado =
      λ j h. elim (marca-marcar i j Marca.completado b l) [ inl (_, e) ↦ e | inr (_, e) ↦ e ∙ h ] in
    let sin_vuelta : ¬ Camino nodos i i =
      λ s. no_esta (alcanza_completados nodos b i i c hijos s) in
    λ j h. elim (marca-marcar i j Marca.completado b l) [
      | inl (e, _) ↦
          subst
            (λ x.
              ((k : ℕ)
                → Espera nodos x k
                → marca (marcar i Marca.completado b) k ≡ Marca.completado)
              × (¬ Camino nodos x x))
            e (λ k s. crece k (hijos k s), sin_vuelta)
      | inr (ne, e) ↦ ((λ k s. crece k ((c j (sym e ∙ h)).0 k s)), (c j (sym e ∙ h)).1)
    ]
