-- ===== src/Kernel/Grafo/Dfs.antt =====
-- grafo_espera.c: dfs_ciclo ends, and tells a cycle from a part of the graph without one.
use recursos_so.Prelude.{
  ℕ, zero, suc, ◌≤◌, ◌<◌, ◌≡◌, refl, sym, ◌∙◌, ap, subst, ◌⊎◌, inl, inr, Bool, true, false, List,
  [], ◌∷◌, Option, none, some, arith, length, get_or, set, length-set, get_or-set_self,
  Option-cases,
}
use recursos_so.Kernel.Grafo.{
  Nodo, indice, Marca, Busqueda, marca, marcar, nodo_vacio, recorrer, dfs_ciclo,
}
use recursos_so.Kernel.Grafo.Caminos.{
  Llega, Llega-nil, Llega-cases, indice-rango, Espera, Camino, agregar, blancos, blancos-set,
  blancos-completar, marca-marcar, Cerrada, Cerrada-completar,
}

pub Marca-cases :
    (v : Marca) → (v ≡ Marca.no_visitado) ⊎ ((v ≡ Marca.en_pila) ⊎ (v ≡ Marca.completado))
Marca-cases Marca.no_visitado = inl refl
Marca-cases Marca.en_pila = inr (inl refl)
Marca-cases Marca.completado = inr (inr refl)

-- What a call that finds nothing does to the marks: it only completes nodes that were not visited.
pub record Avance (b b' : Busqueda) : Type 0 where
  pub largo : length b'.estado ≡ length b.estado
  pub completos : (j : ℕ) → marca b j ≡ Marca.completado → marca b' j ≡ Marca.completado
  pub pila : (j : ℕ) → marca b j ≡ Marca.en_pila → marca b' j ≡ Marca.en_pila
  pub nada_nuevo : (j : ℕ) → marca b' j ≡ Marca.en_pila → marca b j ≡ Marca.en_pila
  pub quedan : blancos b'.estado ≤ blancos b.estado

module _ (nodos : List Nodo) where
  abbrev pub Ciclo : Type 0
  Ciclo = (i : ℕ) × Camino nodos i i

  pub data Fin (actual : ℕ) (b : Busqueda) : Option (Bool × Busqueda) → Type 0 where
    hallado : (b' : Busqueda) → Ciclo → Fin actual b (some (true, b'))
    nada :
        (b' : Busqueda)
        → Avance b b'
        → Cerrada nodos b'
        → marca b' actual ≡ Marca.completado
        → Fin actual b (some (false, b'))

  -- What a call relies on: the nodes of the stack reach the node, and the fuel is enough.
  pub record Puede (fuel actual : ℕ) (b : Busqueda) : Type 0 where
    pub largo : length b.estado ≡ length nodos
    pub en_rango : actual < length nodos
    pub blanco : marca b actual ≡ Marca.no_visitado
    pub alcanza : blancos b.estado ≤ fuel
    pub cerrada : Cerrada nodos b
    pub pila : (g : ℕ) → marca b g ≡ Marca.en_pila → Camino nodos g actual

  -- The state of the loop of a call that began in `b0`.
  record Durante (fuel actual : ℕ) (b0 : Busqueda) (espera_a : List ℕ) (b : Busqueda) : Type 0 where
    inicio : Puede (suc fuel) actual b0
    largo : length b.estado ≡ length nodos
    quedan : blancos b.estado < blancos b0.estado
    cerrada : Cerrada nodos b
    gris : marca b actual ≡ Marca.en_pila
    completos : (j : ℕ) → marca b0 j ≡ Marca.completado → marca b j ≡ Marca.completado
    pila : (j : ℕ) → marca b0 j ≡ Marca.en_pila → marca b j ≡ Marca.en_pila
    nada_nuevo : (j : ℕ) → marca b j ≡ Marca.en_pila → (actual ≡ j) ⊎ (marca b0 j ≡ Marca.en_pila)
    faltan :
        (j : ℕ) → Espera nodos actual j → Llega nodos espera_a j ⊎ (marca b j ≡ Marca.completado)
    propias : (j : ℕ) → Llega nodos espera_a j → Espera nodos actual j

  -- The start of a call.
  empezar :
      (fuel actual : ℕ) (b : Busqueda)
      → Puede (suc fuel) actual b
      → Durante fuel actual b
          (get_or nodos actual nodo_vacio).espera_a
          (marcar actual Marca.en_pila b)
  empezar fuel actual b p =
      let r : actual < length b.estado = subst (λ x. actual < x) (sym p.largo) p.en_rango in
      let c = λ (j : ℕ). marca-marcar actual j Marca.en_pila b r in
      let queda : (j : ℕ)
          → marca b j ≡ Marca.completado
          → marca (marcar actual Marca.en_pila b) j ≡ Marca.completado =
        λ j h. elim (c j) [
          | inl (e, _) ↦ absurd (cc (p.blanco, h, ap (marca b) e))
          | inr (_, e) ↦ e ∙ h
        ] in
      record {
        inicio = p;
        largo = length-set b.estado actual Marca.en_pila ∙ p.largo;
        quedan = omega (arith, blancos-set b.estado actual r p.blanco);
        cerrada = λ i h. elim (c i) [
          | inl (_, e) ↦ absurd (cc (e, h))
          | inr (_, e) ↦
              ((λ j s. queda j ((p.cerrada i (sym e ∙ h)).0 j s)), (p.cerrada i (sym e ∙ h)).1)
        ];
        gris = get_or-set_self b.estado actual Marca.en_pila Marca.no_visitado r;
        completos = queda;
        pila = λ j h. elim (c j) [ inl (_, e) ↦ e | inr (_, e) ↦ e ∙ h ];
        nada_nuevo = λ j h. elim (c j) [ inl (e, _) ↦ inl e | inr (_, e) ↦ inr (sym e ∙ h) ];
        faltan = λ j l. inl l;
        propias = λ j l. l;
      }

  -- The end of the loop.
  cerrar :
      (fuel actual : ℕ) (b0 b : Busqueda)
      → Durante fuel actual b0 [] b
      → Fin actual b0 (some (false, marcar actual Marca.completado b))
  cerrar fuel actual b0 b d =
      let r : actual < length b.estado = subst (λ x. actual < x) (sym d.largo) d.inicio.en_rango in
      let c = λ (j : ℕ). marca-marcar actual j Marca.completado b r in
      nada (marcar actual Marca.completado b)
        (record {
          largo = length-set b.estado actual Marca.completado ∙ d.largo ∙ sym d.inicio.largo;
          completos = λ j h. elim (c j) [ inl (_, e) ↦ e | inr (_, e) ↦ e ∙ d.completos j h ];
          pila = λ j h. elim (c j) [
            | inl (e, _) ↦ absurd (cc (d.inicio.blanco, h, ap (marca b0) e))
            | inr (_, e) ↦ e ∙ d.pila j h
          ];
          nada_nuevo = λ j h. elim (c j) [
            | inl (_, e) ↦ absurd (cc (e, h))
            | inr (ne, e) ↦ elim (d.nada_nuevo j (sym e ∙ h)) [ inl f ↦ absurd (ne f) | inr f ↦ f ]
          ];
          quedan = omega (arith, d.quedan, blancos-completar b.estado actual);
        })
        (Cerrada-completar nodos b actual r (λ e. cc (d.gris, e))
          (λ j s. elim (d.faltan j s) [ inl l ↦ Llega-nil nodos j l | inr f ↦ f ]) d.cerrada)
        (get_or-set_self b.estado actual Marca.completado Marca.no_visitado r)

  -- An edge whose node is completed is done with.
  pasar :
      (fuel actual : ℕ) (b0 b : Busqueda) (dest : ℕ) (espera_a : List ℕ)
      → ((j : ℕ) → indice nodos dest ≡ some j → marca b j ≡ Marca.completado)
      → Durante fuel actual b0 (dest ∷ espera_a) b
      → Durante fuel actual b0 espera_a b
  pasar fuel actual b0 b dest espera_a hecho d = record {
    inicio = d.inicio;
    largo = d.largo;
    quedan = d.quedan;
    cerrada = d.cerrada;
    gris = d.gris;
    completos = d.completos;
    pila = d.pila;
    nada_nuevo = d.nada_nuevo;
    faltan = λ j s. elim (d.faltan j s) [
      | inl l ↦ elim (Llega-cases nodos dest j espera_a l) [
        | inl e ↦ inr (hecho j e)
        | inr l' ↦ inl l'
      ]
      | inr f ↦ inr f
    ];
    propias = λ j l. d.propias j (Llega.luego l);
  }

  -- What a call in the loop leaves.
  volver :
      (fuel actual : ℕ) (b0 b b' : Busqueda) (espera_a : List ℕ) (padre : List (Option ℕ))
      → Avance (record b { padre = padre }) b'
      → Cerrada nodos b'
      → Durante fuel actual b0 espera_a b
      → Durante fuel actual b0 espera_a b'
  volver fuel actual b0 b b' espera_a padre a c d =
      let q = a.quedan in
      let q0 = d.quedan in
      record {
        inicio = d.inicio;
        largo = a.largo ∙ d.largo;
        quedan = omega arith;
        cerrada = c;
        gris = a.pila actual d.gris;
        completos = λ j h. a.completos j (d.completos j h);
        pila = λ j h. a.pila j (d.pila j h);
        nada_nuevo = λ j h. d.nada_nuevo j (a.nada_nuevo j h);
        faltan = λ j s. elim (d.faltan j s) [ inl l ↦ inl l | inr f ↦ inr (a.completos j f) ];
        propias = d.propias;
      }

  -- A node of the stack reaches what the node of the loop waits for.
  desde_pila :
      (fuel actual : ℕ) (b0 b : Busqueda) (espera_a : List ℕ) (g j : ℕ)
      → Durante fuel actual b0 espera_a b
      → marca b g ≡ Marca.en_pila
      → Espera nodos actual j
      → Camino nodos g j
  desde_pila fuel actual b0 b espera_a g j d h s = elim (d.nada_nuevo g h) [
    | inl e ↦ subst (λ x. Camino nodos x j) e (Camino.paso s)
    | inr f ↦ agregar nodos g actual j (d.inicio.pila g f) s
  ]

  bajar-Puede :
      (fuel actual : ℕ) (b0 b : Busqueda) (dest : ℕ) (espera_a : List ℕ) (j : ℕ)
      (padre : List (Option ℕ))
      → indice nodos dest ≡ some j
      → marca b j ≡ Marca.no_visitado
      → Durante fuel actual b0 (dest ∷ espera_a) b
      → Puede fuel j (record b { padre = padre })
  bajar-Puede fuel actual b0 b dest espera_a j padre e h d =
      let q = d.quedan in
      let q0 = d.inicio.alcanza in
      record {
        largo = d.largo;
        en_rango = indice-rango nodos dest j e;
        blanco = h;
        alcanza = omega arith;
        cerrada = d.cerrada;
        pila = λ g f.
            desde_pila fuel actual b0 b (dest ∷ espera_a) g j d f (d.propias j (Llega.aqui e));
      }

  -- The result of the call decides how the loop goes on.
  seguir :
      (actual j : ℕ) (b0 b1 : Busqueda) (r : Option (Bool × Busqueda))
      (mas : Busqueda → Option (Bool × Busqueda))
      → Fin j b1 r
      → ((b' : Busqueda)
          → Avance b1 b'
          → Cerrada nodos b'
          → marca b' j ≡ Marca.completado
          → Fin actual b0 (mas b'))
      → Fin actual b0 (elim r as (λ _. Option (Bool × Busqueda)) [
        | none ↦ none
        | some (hay, b') ↦ elim hay as (λ _. Option (Bool × Busqueda)) [
          | true ↦ some (true, b')
          | false ↦ mas b'
        ]
      ])
  seguir actual j b0 b1 r mas (hallado b' c) k = hallado b' c
  seguir actual j b0 b1 r mas (nada b' a c h) k = k b' a c h

  recorrer-Fin :
      (bajar : ℕ → Busqueda → Option (Bool × Busqueda)) (fuel actual : ℕ) (b0 : Busqueda)
      → ((j : ℕ) (b : Busqueda) → Puede fuel j b → Fin j b (bajar j b))
      → (espera_a : List ℕ) (b : Busqueda) → Durante fuel actual b0 espera_a b
      → Fin actual b0 (recorrer nodos bajar actual espera_a b)
  unfolding recorrer
  recorrer-Fin bajar fuel actual b0 cree [] b d = cerrar fuel actual b0 b d
  recorrer-Fin bajar fuel actual b0 cree (dest ∷ espera_a) b d =
      elim (Option-cases (indice nodos dest)) [
        | inl fuera ↦
            rw (fuera, recorrer)
              (recorrer-Fin bajar fuel actual b0 cree espera_a b
                (pasar fuel actual b0 b dest espera_a (λ j e. absurd (cc (fuera, e))) d))
        | inr (j, e) ↦ elim (Marca-cases (marca b j)) [
          | inl nueva ↦
              let b1 = record b { padre = set b.padre j (some actual) } in
              rw (e, nueva, recorrer)
                (seguir actual j b0 b1 (bajar j b1) (recorrer nodos bajar actual espera_a)
                  (cree j b1 (bajar-Puede fuel actual b0 b dest espera_a j b1.padre e nueva d))
                  (λ b' a c h. recorrer-Fin bajar fuel actual b0 cree espera_a b' (
                    pasar fuel actual b0 b' dest espera_a (λ i f. cc (e, f, h))
                      (volver fuel actual b0 b b' (dest ∷ espera_a) b1.padre a c d))))
          | inr (inl en) ↦
              rw (e, en, recorrer)
                (hallado _ (
                  j,
                  desde_pila fuel actual b0 b (dest ∷ espera_a) j j d en
                      (d.propias j (Llega.aqui e)),
                ))
          | inr (inr hecha) ↦
              rw (e, hecha, recorrer)
                (recorrer-Fin bajar fuel actual b0 cree espera_a b
                  (pasar fuel actual b0 b dest espera_a (λ i f. cc (e, f, hecha)) d))
        ]
      ]

  -- With as much fuel as nodes to visit, a call ends.
  pub dfs_ciclo-Fin :
      (fuel actual : ℕ) (b : Busqueda)
      → Puede fuel actual b
      → Fin actual b (dfs_ciclo nodos fuel actual b)
  unfolding dfs_ciclo
  dfs_ciclo-Fin zero actual b p = absurd (
      omega (
        arith,
        p.alcanza,
        blancos-set b.estado actual (subst (λ x. actual < x) (sym p.largo) p.en_rango) p.blanco,
      ))
  dfs_ciclo-Fin (suc fuel) actual b p =
      recorrer-Fin (dfs_ciclo nodos fuel) fuel actual b (dfs_ciclo-Fin fuel) _ _
        (empezar fuel actual b p)
