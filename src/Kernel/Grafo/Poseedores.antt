-- ===== src/Kernel/Grafo/Poseedores.antt =====
-- The searches of grafo_espera.c - the resource, the holders, the index - as what they find.
use recursos_so.Prelude.{
  ◌⊎◌, ℕ, suc, ◌≡◌, ◌≢◌, ◌↔◌, refl, sym, ap, ◌∙◌, subst, inl, inr, true, false, List, [], ◌∷◌, map,
  some, String, str_eq, str_eq_iff, ◌==◌, ==_iff, arith, Alguno, Bool-cases, Option-cases,
}
use recursos_so.Kernel.{Pcb, Recurso, Kernel}
use recursos_so.Kernel.Banquero.{en_cola, es_block}
use recursos_so.Kernel.Grafo.{
  Nodo, indice, tiene_recurso, buscar_recurso_esperado, buscar_poseedores, sin_el_mismo, nodo_de,
}
use recursos_so.Kernel.Grafo.Caminos.{Llega, Llega-cases}
use recursos_so.Kernel.Banquero.Colas.{en_cola_iff}
use recursos_so.Kernel.Grafo.Espera.{Encolado, PrimeraCola, Lugar, Posee}

module _ (h : ℕ → Pcb) where
  PrimeraCola-cases :
      (pid : ℕ) (r r' : Recurso) (rs : List Recurso)
      → PrimeraCola h pid (r ∷ rs) r'
      → (Encolado h pid r × (r ≡ r')) ⊎ ((¬ Encolado h pid r) × PrimeraCola h pid rs r')
  PrimeraCola-cases pid r r' rs (PrimeraCola.en_esta s) = inl (s, refl)
  PrimeraCola-cases pid r r' rs (PrimeraCola.otra s t) = inr (s, t)

  pub buscar_iff :
      (pid : ℕ) (rs : List Recurso) (nombre : String)
      → (buscar_recurso_esperado h pid rs ≡ some nombre)
        ↔ ((r : Recurso) × PrimeraCola h pid rs r × (r.nombre ≡ nombre))
  unfolding buscar_recurso_esperado
  buscar_iff pid [] nombre = ((λ e. absurd (cc e)), (λ (r, p, e). elim p [ ]))
  buscar_iff pid (r ∷ rs) nombre =
      let c = en_cola_iff h pid r.cola_bloqueados in
      elim (Bool-cases (en_cola h pid r.cola_bloqueados)) [
        | inl e ↦
            rw (e, buscar_recurso_esperado)
              (
                (λ f. (r, PrimeraCola.en_esta (c.0 e), cc f)),
                (λ (r', p, f). elim (PrimeraCola-cases pid r r' rs p) [
                  | inl (s, g) ↦ ap (λ x. some x.nombre) g ∙ ap some f
                  | inr (s, t) ↦ absurd (s (c.0 e))
                ]),
              )
        | inr e ↦
            rw (e, buscar_recurso_esperado)
              (
                (λ f.
                    let (r', p, g) = (buscar_iff pid rs nombre).0 f in
                    (r', PrimeraCola.otra (λ a. cc (c.1 a, e)) p, g)),
                (λ (r', p, f). elim (PrimeraCola-cases pid r r' rs p) [
                  | inl (s, g) ↦ absurd (cc (c.1 s, e))
                  | inr (s, t) ↦ (buscar_iff pid rs nombre).1 (r', t, f)
                ]),
              )
      ]

  tiene_iff :
      (nombre : String) (rs : List String)
      → (tiene_recurso nombre rs ≡ true) ↔ Alguno (λ res. res ≡ nombre) rs
  unfolding tiene_recurso
  tiene_iff nombre [] = ((λ e. absurd (cc e)), (λ a. elim a [ ]))
  tiene_iff nombre (r ∷ rs) = elim (Bool-cases (str_eq r nombre)) [
    | inl e ↦ rw (e, tiene_recurso) ((λ _. Alguno.aqui ((str_eq_iff r nombre).0 e)), (λ _. refl))
    | inr e ↦
        rw (e, tiene_recurso)
          (
            (λ f. Alguno.luego ((tiene_iff nombre rs).0 f)),
            (λ a. elim a [
              | Alguno.aqui f ↦ absurd (cc ((str_eq_iff r nombre).1 f, e))
              | Alguno.luego f ↦ (tiene_iff nombre rs).1 f
            ]),
          )
  ]

module _ (k : Kernel) where
  abbrev pub pid_de : ℕ → ℕ
  pid_de p = (k.pcbs p).pid

  pid-nodo_de : (todos : List ℕ) (p : ℕ) → (nodo_de k todos p).pid ≡ pid_de p
  unfolding nodo_de
  pid-nodo_de todos p = elim (Bool-cases (es_block (k.pcbs p).estado)) [
    | inl e ↦ elim (Option-cases (buscar_recurso_esperado k.pcbs (k.pcbs p).pid k.recursos)) [
      | inl f ↦ rw (e, f, nodo_de) refl
      | inr (r, f) ↦ rw (e, f, nodo_de) refl
    ]
    | inr e ↦ rw (e, nodo_de) refl
  ]

  Lugar-cases :
      (pid p j : ℕ) (ps : List ℕ)
      → Lugar k.pcbs pid (p ∷ ps) j
      → ((pid_de p ≡ pid) × (j ≡ 0))
        ⊎ ((pid_de p ≢ pid) × ((i : ℕ) × (j ≡ suc i) × Lugar k.pcbs pid ps i))
  Lugar-cases pid p j ps (Lugar.este e) = inl (e, refl)
  Lugar-cases pid p j ps (Lugar.siguiente {i = i} n l) = inr (n, (i, refl, l))

  pub lugar_de :
      (todos ps : List ℕ) (pid j : ℕ)
      → indice (map (nodo_de k todos) ps) pid ≡ some j
      → Lugar k.pcbs pid ps j
  unfolding indice
  lugar_de todos [] pid j h = absurd (cc h)
  lugar_de todos (p ∷ ps) pid j h =
      let e = pid-nodo_de todos p in
      let ns = map (nodo_de k todos) ps in
      elim (Bool-cases ((nodo_de k todos p).pid == pid)) [
        | inl f ↦
            let g : 0 ≡ j = ground arith in
            subst (λ x. Lugar k.pcbs pid (p ∷ ps) x) g
              (Lugar.este (sym e ∙ (==_iff (nodo_de k todos p).pid pid).0 f))
        | inr f ↦ elim (Option-cases (indice ns pid)) [
          | inl nada ↦ absurd (ground arith)
          | inr (i, g) ↦
              let q : suc i ≡ j = ground arith in
              subst (λ x. Lugar k.pcbs pid (p ∷ ps) x) q
                (Lugar.siguiente
                  (λ c. absurd (cc ((==_iff (nodo_de k todos p).pid pid).1 (e ∙ c), f)))
                  (lugar_de todos ps pid i g))
        ]
      ]

  pub de_lugar :
      (todos ps : List ℕ) (pid j : ℕ)
      → Lugar k.pcbs pid ps j
      → indice (map (nodo_de k todos) ps) pid ≡ some j
  unfolding indice
  de_lugar todos [] pid j l = elim l [ ]
  de_lugar todos (p ∷ ps) pid j l =
      let e = pid-nodo_de todos p in
      elim (Lugar-cases pid p j ps l) [
        | inl (f, g) ↦
            let s : ((nodo_de k todos p).pid == pid) ≡ true = (==_iff _ _).1 (e ∙ f) in
            rw (s, g, indice) refl
        | inr (f, (i, g, r)) ↦
            let s : ((nodo_de k todos p).pid == pid) ≡ false =
              elim (Bool-cases ((nodo_de k todos p).pid == pid)) [
                | inl b ↦ absurd (f (sym e ∙ (==_iff (nodo_de k todos p).pid pid).0 b))
                | inr b ↦ b
              ] in
            rw (s, g, de_lugar todos ps pid i r, indice) refl
      ]

  -- What the list of holders reaches.
  pub Llega-iff :
      (ns : List Nodo) (nombre : String) (pid j : ℕ) (todos : List ℕ)
      → Llega ns (sin_el_mismo pid (buscar_poseedores k.pcbs nombre todos)) j
        ↔ Alguno
            (λ q. Posee k.pcbs nombre q × (pid_de q ≢ pid) × (indice ns (pid_de q) ≡ some j))
            todos
  unfolding sin_el_mismo buscar_poseedores
  Llega-iff ns nombre pid j [] = ((λ l. elim l [ ]), (λ a. elim a [ ]))
  Llega-iff ns nombre pid j (q ∷ todos) =
      let c = tiene_iff k.pcbs nombre (k.pcbs q).recursos_adquiridos in
      let resto = Llega-iff ns nombre pid j todos in
      elim (Bool-cases (tiene_recurso nombre (k.pcbs q).recursos_adquiridos)) [
        | inr no_tiene ↦
            rw (no_tiene, buscar_poseedores)
              (
                (λ l. Alguno.luego (resto.0 l)),
                (λ a. elim a [
                  | Alguno.aqui (f, _, _) ↦ absurd (cc (c.1 f, no_tiene))
                  | Alguno.luego f ↦ resto.1 f
                ]),
              )
        | inl tiene ↦ elim (Bool-cases (pid_de q == pid)) [
          | inl el_mismo ↦
              rw (tiene, buscar_poseedores, el_mismo, sin_el_mismo)
                (
                  (λ l. Alguno.luego (resto.0 l)),
                  (λ a. elim a [
                    | Alguno.aqui (_, f, _) ↦ absurd (f ((==_iff (pid_de q) pid).0 el_mismo))
                    | Alguno.luego f ↦ resto.1 f
                  ]),
                )
          | inr otro ↦
              rw (tiene, buscar_poseedores, otro, sin_el_mismo)
                (
                  (λ l. elim (Llega-cases ns (pid_de q) j _ l) [
                    | inl e ↦
                        Alguno.aqui (c.0 tiene, (λ f. cc ((==_iff (pid_de q) pid).1 f, otro)), e)
                    | inr f ↦ Alguno.luego (resto.0 f)
                  ]),
                  (λ a. elim a [
                    | Alguno.aqui (_, _, e) ↦ Llega.aqui e
                    | Alguno.luego f ↦ Llega.luego (resto.1 f)
                  ]),
                )
        ]
      ]
