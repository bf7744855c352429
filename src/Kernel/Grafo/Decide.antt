-- ===== src/Kernel/Grafo/Decide.antt =====
-- grafo_espera.c: grafo_espera_detectar_deadlock over the state of the kernel.
use recursos_so.Prelude.{
  ℕ, zero, suc, ◌+◌, ◌≤◌, ◌<◌, ◌≡◌, ◌≢◌, refl, ◌∙◌, ap, subst, ◌⊎◌, inl, inr, ◌↔◌, Bool, true,
  false, dec_lt, ℕ_discrete, List, [], ◌∷◌, Option, none, some, arith, length, get_or, replicate,
  length-replicate, Bool-cases, ltb→lt, ltb, ◌==◌,
}
use recursos_so.Kernel.{Kernel}
use recursos_so.Kernel.Grafo.{
  Nodo, Marca, Busqueda, marca, nodo_vacio, sin_visitar, bloqueados, dfs_ciclo, buscar_ciclo,
  nodos_de, grafo_espera_detectar_deadlock,
}
use recursos_so.Kernel.Grafo.Caminos.{
  primera, Llega, Llega-nil, Espera, blancos, blancos-largo, Cerrada,
}
use recursos_so.Kernel.Grafo.Bloqueados.{Ciclo-bloqueados}
use recursos_so.Kernel.Grafo.Espera.{Abrazo}
use recursos_so.Kernel.Grafo.Aristas.{Abrazo-iff}
use recursos_so.Kernel.Grafo.Dfs.{Avance, Ciclo, Fin, Puede, dfs_ciclo-Fin, Marca-cases}

module _ (nodos : List Nodo) where
  data Decidido : Option (Bool × Busqueda) → Type 0 where
    con_ciclo : (b : Busqueda) → Ciclo nodos → Decidido (some (true, b))
    sin_ciclos : (b : Busqueda) → (¬ Ciclo nodos) → Decidido (some (false, b))

  -- The state of the loop over the nodes, before node `i`.
  record Vamos (i : ℕ) (b : Busqueda) : Type 0 where
    largo : length b.estado ≡ length nodos
    cerrada : Cerrada nodos b
    limpia : (j : ℕ) → marca b j ≢ Marca.en_pila
    vistos :
        (j : ℕ)
        → j < i
        → (marca b j ≡ Marca.completado) ⊎ (length (get_or nodos j nodo_vacio).espera_a ≡ 0)

  Llega-vacia : (ds : List ℕ) (k : ℕ) → length ds ≡ 0 → ¬ Llega nodos ds k
  Llega-vacia [] k e l = Llega-nil nodos k l
  Llega-vacia (x ∷ ds) k e l = absurd (omega arith)

  Espera-vacia : (j k : ℕ) → length (get_or nodos j nodo_vacio).espera_a ≡ 0 → ¬ Espera nodos j k
  Espera-vacia j k h s = Llega-vacia (get_or nodos j nodo_vacio).espera_a k h s

  fuera-vacia : (ns : List Nodo) (i : ℕ) → length ns ≤ i → get_or ns i nodo_vacio ≡ nodo_vacio
  fuera-vacia [] i l = refl
  fuera-vacia (n ∷ ns) zero l = absurd (omega arith)
  fuera-vacia (n ∷ ns) (suc i) l = fuera-vacia ns i (omega arith)

  -- Where every node is done with, there is no cycle.
  sin_ciclo : (b : Busqueda) → Vamos (length nodos) b → ¬ Ciclo nodos
  sin_ciclo b v (i, c) =
      let (k, e) = primera nodos i i c in
      elim (dec_lt i (length nodos)) [
        | yes l ↦ elim (v.vistos i l) [ inl f ↦ (v.cerrada i f).1 c | inr f ↦ Espera-vacia i k f e ]
        | no f ↦
            Espera-vacia i k (ap (λ x. length x.espera_a) (fuera-vacia nodos i (omega arith))) e
      ]

  -- A node that is done with.
  pasar :
      (i : ℕ) (b : Busqueda)
      → (marca b i ≡ Marca.completado) ⊎ (length (get_or nodos i nodo_vacio).espera_a ≡ 0)
      → Vamos i b
      → Vamos (suc i) b
  pasar i b h v = record {
    largo = v.largo;
    cerrada = v.cerrada;
    limpia = v.limpia;
    vistos = λ j l. elim (ℕ_discrete i j) [
      | yes e ↦
          subst
            (λ x.
              (marca b x ≡ Marca.completado) ⊎ (length (get_or nodos x nodo_vacio).espera_a ≡ 0))
            e h
      | no ne ↦ v.vistos j (ground arith)
    ];
  }

  tras_dfs : (i : ℕ) (b b' : Busqueda) → Avance b b' → Cerrada nodos b' → Vamos i b → Vamos i b'
  tras_dfs i b b' a c v = record {
    largo = a.largo ∙ v.largo;
    cerrada = c;
    limpia = λ j h. v.limpia j (a.nada_nuevo j h);
    vistos = λ j l. elim (v.vistos j l) [ inl f ↦ inl (a.completos j f) | inr f ↦ inr f ];
  }

  seguir :
      (i : ℕ) (b : Busqueda) (r : Option (Bool × Busqueda))
      (mas : Busqueda → Option (Bool × Busqueda))
      → Fin nodos i b r
      → ((b' : Busqueda)
          → Avance b b'
          → Cerrada nodos b'
          → marca b' i ≡ Marca.completado
          → Decidido (mas b'))
      → Decidido (elim r as (λ _. Option (Bool × Busqueda)) [
        | none ↦ none
        | some (hay, b') ↦ elim hay as (λ _. Option (Bool × Busqueda)) [
          | true ↦ some (true, b')
          | false ↦ mas b'
        ]
      ])
  seguir i b r mas (Fin.hallado b' c) k = Decidido.con_ciclo b' c
  seguir i b r mas (Fin.nada b' a c h) k = k b' a c h

  visitar-Puede :
      (i : ℕ) (b : Busqueda)
      → i < length nodos
      → marca b i ≡ Marca.no_visitado
      → Vamos i b
      → Puede nodos (length nodos) i b
  visitar-Puede i b l h v = record {
    largo = v.largo;
    en_rango = l;
    blanco = h;
    alcanza = subst (λ x. blancos b.estado ≤ x) v.largo (blancos-largo b.estado);
    cerrada = v.cerrada;
    pila = λ g f. absurd (v.limpia g f);
  }

  buscar_ciclo-Decidido :
      (n i : ℕ) (b : Busqueda)
      → n + i ≡ length nodos
      → Vamos i b
      → Decidido (buscar_ciclo nodos n i b)
  unfolding buscar_ciclo
  buscar_ciclo-Decidido zero i b e v =
      let fin : i ≡ length nodos = omega arith in
      Decidido.sin_ciclos b (sin_ciclo b (subst (λ x. Vamos x b) fin v))
  buscar_ciclo-Decidido (suc n) i b e v = elim (Marca-cases (marca b i)) [
    | inl nueva ↦ elim (Bool-cases (length (get_or nodos i nodo_vacio).espera_a == 0)) [
      | inl vacia ↦
          rw (nueva, vacia, buscar_ciclo)
            (buscar_ciclo-Decidido n (suc i) b (omega arith) (pasar i b (inr (ground arith)) v))
      | inr con ↦
          rw (nueva, con, buscar_ciclo)
            (seguir i b (dfs_ciclo nodos (length nodos) i b) (buscar_ciclo nodos n (suc i))
              (dfs_ciclo-Fin nodos (length nodos) i b (visitar-Puede i b (omega arith) nueva v))
              (λ b' a c h.
                buscar_ciclo-Decidido n (suc i) b' (omega arith)
                  (pasar i b' (inl h) (tras_dfs i b b' a c v))))
    ]
    | inr (inl en) ↦ absurd (v.limpia i en)
    | inr (inr hecha) ↦
        rw (hecha, buscar_ciclo)
          (buscar_ciclo-Decidido n (suc i) b (omega arith) (pasar i b (inl hecha) v))
  ]

  todo_blanco :
      (n j : ℕ) → get_or (replicate n Marca.no_visitado) j Marca.no_visitado ≡ Marca.no_visitado
  todo_blanco zero j = refl
  todo_blanco (suc n) zero = refl
  todo_blanco (suc n) (suc j) = todo_blanco n j

  desde_cero : Vamos 0 (sin_visitar (length nodos))
  desde_cero = record {
    largo = length-replicate (length nodos) Marca.no_visitado;
    cerrada = λ i h. absurd (cc (todo_blanco (length nodos) i, h));
    limpia = λ j h. cc (todo_blanco (length nodos) j, h);
    vistos = λ j l. absurd (omega arith);
  }

decide_kernel :
    (k : Kernel) (r : Option (Bool × Busqueda))
    → Decidido (nodos_de k) r
    → (hay : Bool) × (ciclo : List ℕ) × ((elim r as (λ _. Option (Bool × List ℕ)) [
      | none ↦ none
      | some (h, b) ↦ some (h, b.ciclo)
    ])
        ≡ some (hay, ciclo))
      × ((hay ≡ true) ↔ Ciclo (nodos_de k))
decide_kernel k r (Decidido.con_ciclo b c) = (true, b.ciclo, refl, ((λ e. c), (λ c. refl)))
decide_kernel k r (Decidido.sin_ciclos b c) =
    (false, b.ciclo, refl, ((λ e. absurd (cc e)), (λ d. absurd (c d))))

pocos_nodos : (ns : List Nodo) → length ns ≡ 0 → bloqueados ns < 2
unfolding bloqueados
pocos_nodos [] e = omega arith
pocos_nodos (n ∷ ns) e = absurd (omega arith)

-- Fewer than two waiting processes make no cycle.
callado :
    (k : Kernel)
    → bloqueados (nodos_de k) < 2
    → (hay : Bool) × (ciclo : List ℕ) × (◌≡◌ {A = Option (Bool × List ℕ)}
        (some (false, []))
        (some (hay, ciclo)))
      × ((hay ≡ true) ↔ Ciclo (nodos_de k))
callado k l =
    (false, [], refl, ((λ e. absurd (cc e)), (λ c. absurd (omega (arith, Ciclo-bloqueados k c)))))

-- For every state of the kernel, the detector comes to an end, and it reports a deadlock exactly where
-- its graph has a cycle.
pub grafo_espera_detectar_deadlock_ciclo :
    (k : Kernel)
    → (hay : Bool) × (ciclo : List ℕ) × (grafo_espera_detectar_deadlock k ≡ some (hay, ciclo))
      × ((hay ≡ true) ↔ Ciclo (nodos_de k))
unfolding grafo_espera_detectar_deadlock
grafo_espera_detectar_deadlock_ciclo k = elim (Bool-cases (length (nodos_de k) == 0)) [
  | inl vacio ↦ rw (vacio) (callado k (pocos_nodos (nodos_de k) (ground arith)))
  | inr hay_nodos ↦ elim (Bool-cases (ltb (bloqueados (nodos_de k)) 2)) [
    | inl pocos ↦ rw (hay_nodos, pocos) (callado k (ltb→lt (bloqueados (nodos_de k)) 2 pocos))
    | inr varios ↦
        rw (hay_nodos, varios)
          (decide_kernel k _ (
            buscar_ciclo-Decidido (nodos_de k) (length (nodos_de k)) 0 _ (omega arith)
              (desde_cero (nodos_de k))))
  ]
]

-- For every state of the kernel, the detector comes to an end, and it reports a deadlock exactly where
-- some active process waits, through others, for itself: each one of the chain is blocked in the queue of
-- a resource - the first one where it is in several -, and the next one is the first active process with
-- the pid of another process, active too, that holds the resource.
pub grafo_espera_detectar_deadlock_decide :
    (k : Kernel)
    → (hay : Bool) × (ciclo : List ℕ) × (grafo_espera_detectar_deadlock k ≡ some (hay, ciclo))
      × ((hay ≡ true) ↔ Abrazo k)
grafo_espera_detectar_deadlock_decide k =
    let (hay, ciclo, e, c) = grafo_espera_detectar_deadlock_ciclo k in
    let a = Abrazo-iff k in (hay, ciclo, e, ((λ f. a.0 (c.0 f)), (λ f. c.1 (a.1 f))))
