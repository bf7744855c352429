-- ===== src/Kernel/Grafo/Aristas.antt =====
-- The edges of grafo_espera.c are the processes that wait for another, and its cycles are theirs.
use recursos_so.Prelude.{
  ℕ, zero, suc, ◌≡◌, ◌≢◌, ◌↔◌, refl, sym, subst, inl, inr, List, [], ◌∷◌, map, some, String, get_or,
  Alguno, Bool-cases, Option-cases,
}
use recursos_so.Kernel.{Kernel}
use recursos_so.Kernel.Banquero.{es_block, activos}
use recursos_so.Kernel.Grafo.{nodo_vacio, indice, buscar_recurso_esperado, nodo_de, nodos_de}
use recursos_so.Kernel.Grafo.Caminos.{Llega, Camino}
use recursos_so.Kernel.Banquero.Colas.{es_block_iff}
use recursos_so.Kernel.Grafo.Espera.{Lugar, Posee, Aguarda, Arista, Cadena, Abrazo}
use recursos_so.Kernel.Grafo.Dfs.{Ciclo}
use recursos_so.Kernel.Grafo.Poseedores.{buscar_iff, pid_de, lugar_de, de_lugar, Llega-iff}

module _ (k : Kernel) where
  -- Places for indices, in a list of holders.
  poseedores_iff :
      (nombre : String) (pid j : ℕ) (qs : List ℕ)
      → Alguno
          (λ q.
            Posee k.pcbs nombre q
            × ((pid_de k q) ≢ pid)
            × (indice (nodos_de k) (pid_de k q) ≡ some j))
          qs
        ↔ Alguno
            (λ q.
              Posee k.pcbs nombre q
              × ((pid_de k q) ≢ pid)
              × Lugar k.pcbs (pid_de k q) (activos k) j)
            qs
  poseedores_iff nombre pid j [] = ((λ a. elim a [ ]), (λ a. elim a [ ]))
  poseedores_iff nombre pid j (q ∷ qs) =
      let resto = poseedores_iff nombre pid j qs in
      (
        (λ a. elim a [
          | Alguno.aqui (f, g, e) ↦
              Alguno.aqui (f, g, lugar_de k (activos k) (activos k) (pid_de k q) j e)
          | Alguno.luego f ↦ Alguno.luego (resto.0 f)
        ]),
        (λ a. elim a [
          | Alguno.aqui (f, g, l) ↦
              Alguno.aqui (f, g, de_lugar k (activos k) (activos k) (pid_de k q) j l)
          | Alguno.luego f ↦ Alguno.luego (resto.1 f)
        ]),
      )

  Aguarda-iff : (p j : ℕ) → Llega (nodos_de k) (nodo_de k (activos k) p).espera_a j ↔ Aguarda k p j
  unfolding nodo_de
  Aguarda-iff p j =
      let b = es_block_iff (k.pcbs p).estado in
      let busca = buscar_iff k.pcbs (pid_de k p) k.recursos in
      elim (Bool-cases (es_block (k.pcbs p).estado)) [
        | inr libre ↦
            rw (libre, nodo_de) ((λ l. elim l [ ]), (λ a. absurd (cc (b.1 a.bloqueado, libre))))
        | inl bloqueado ↦
            elim (Option-cases (buscar_recurso_esperado k.pcbs (pid_de k p) k.recursos)) [
              | inl nada ↦
                  rw (bloqueado, nada, nodo_de)
                    (
                      (λ l. elim l [ ]),
                      (λ a.
                          absurd (
                            cc ((busca a.recurso.nombre).1 (a.recurso, a.en_su_cola, refl), nada))),
                    )
              | inr (nombre, es) ↦
                  let llega = Llega-iff k (nodos_de k) nombre (pid_de k p) j (activos k) in
                  let lugares = poseedores_iff nombre (pid_de k p) j (activos k) in
                  rw (bloqueado, es, nodo_de)
                    (
                      (λ l.
                          let (r, c, e) = (busca nombre).0 es in
                          record {
                            bloqueado = b.0 bloqueado;
                            recurso = r;
                            en_su_cola = c;
                            poseedor =
                                subst
                                  (λ n.
                                    Alguno
                                      (λ q.
                                        Posee k.pcbs n q
                                        × ((pid_de k q) ≢ (pid_de k p))
                                        × Lugar k.pcbs (pid_de k q) (activos k) j)
                                      (activos k))
                                  (sym e) (lugares.0 (llega.0 l));
                          }),
                      (λ a.
                          let e : a.recurso.nombre ≡ nombre =
                            cc ((busca a.recurso.nombre).1 (a.recurso, a.en_su_cola, refl), es) in
                          llega.1 (
                            lugares.1 (
                              subst
                                (λ n.
                                  Alguno
                                    (λ q.
                                      Posee k.pcbs n q
                                      × ((pid_de k q) ≢ (pid_de k p))
                                      × Lugar k.pcbs (pid_de k q) (activos k) j)
                                    (activos k))
                                e a.poseedor))),
                    )
            ]
      ]

  Arista-iff :
      (ps : List ℕ) (i j : ℕ)
      → Llega (nodos_de k) (get_or (map (nodo_de k (activos k)) ps) i nodo_vacio).espera_a j
        ↔ Arista k j ps i
  Arista-iff [] i j = ((λ l. elim l [ ]), (λ a. elim a [ ]))
  Arista-iff (p ∷ ps) zero j = (
    (λ l. Arista.cabeza ((Aguarda-iff p j).0 l)),
    (λ a. elim a [ Arista.cabeza f ↦ (Aguarda-iff p j).1 f ]),
  )
  Arista-iff (p ∷ ps) (suc i) j = (
    (λ l. Arista.cola ((Arista-iff ps i j).0 l)),
    (λ a. elim a [ Arista.cola f ↦ (Arista-iff ps i j).1 f ]),
  )

  Cadena-Camino : (i j : ℕ) → Camino (nodos_de k) i j → Cadena k i j
  Cadena-Camino i j (Camino.paso e) = Cadena.una ((Arista-iff (activos k) i j).0 e)
  Cadena-Camino i j (Camino.sigue {j = l} e c) =
      Cadena.mas ((Arista-iff (activos k) i l).0 e) (Cadena-Camino l j c)

  Camino-Cadena : (i j : ℕ) → Cadena k i j → Camino (nodos_de k) i j
  Camino-Cadena i j (Cadena.una e) = Camino.paso ((Arista-iff (activos k) i j).1 e)
  Camino-Cadena i j (Cadena.mas {j = l} e c) =
      Camino.sigue ((Arista-iff (activos k) i l).1 e) (Camino-Cadena l j c)

  pub Abrazo-iff : Ciclo (nodos_de k) ↔ Abrazo k
  Abrazo-iff = ((λ (i, c). (i, Cadena-Camino i i c)), (λ (i, c). (i, Camino-Cadena i i c)))
