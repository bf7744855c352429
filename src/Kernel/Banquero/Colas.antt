-- ===== src/Kernel/Banquero/Colas.antt =====
-- banquero.c: the test on a queue and that on the state, as what they say.
use recursos_so.Prelude.{
  ℕ, ◌≡◌, ◌↔◌, refl, inl, inr, true, List, [], ◌∷◌, ◌==◌, ==_iff, Alguno, Bool-cases,
}
use recursos_so.Kernel.{Estado, Pcb}
use recursos_so.Kernel.Banquero.{en_cola, es_block}

pub en_cola_iff :
    (h : ℕ → Pcb) (pid : ℕ) (bs : List ℕ)
    → (en_cola h pid bs ≡ true) ↔ Alguno (λ b. (h b).pid ≡ pid) bs
unfolding en_cola
en_cola_iff h pid [] = ((λ e. absurd (cc e)), (λ a. elim a [ ]))
en_cola_iff h pid (b ∷ bs) = elim (Bool-cases ((h b).pid == pid)) [
  | inl e ↦ rw (e, en_cola) ((λ _. Alguno.aqui ((==_iff (h b).pid pid).0 e)), (λ _. refl))
  | inr e ↦
      rw (e, en_cola)
        (
          (λ f. Alguno.luego ((en_cola_iff h pid bs).0 f)),
          (λ a. elim a [
            | Alguno.aqui f ↦ absurd (cc ((==_iff (h b).pid pid).1 f, e))
            | Alguno.luego f ↦ (en_cola_iff h pid bs).1 f
          ]),
        )
]

pub es_block_iff : (e : Estado) → (es_block e ≡ true) ↔ (e ≡ Estado.block)
es_block_iff Estado.new = ((λ h. absurd (cc h)), (λ h. absurd (cc h)))
es_block_iff Estado.ready = ((λ h. absurd (cc h)), (λ h. absurd (cc h)))
es_block_iff Estado.exec = ((λ h. absurd (cc h)), (λ h. absurd (cc h)))
es_block_iff Estado.block = ((λ h. refl), (λ h. refl))
es_block_iff Estado.exit = ((λ h. absurd (cc h)), (λ h. absurd (cc h)))
