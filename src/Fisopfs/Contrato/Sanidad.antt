-- ===== src/Fisopfs/Contrato/Sanidad.antt =====
-- The invariant holds after mounting a new file system and after any run of callbacks.
use sistemas_operarivos_fiub.Base.{
  inl, inr, refl, List, [], ◌∷◌, lt→ltb, ==-ne, arith, nat_eq_cases, update,
}
use sistemas_operarivos_fiub.Fisopfs.Tipos.{Superbloque, Contexto, max_inodes}
use sistemas_operarivos_fiub.Fisopfs.Inodos.{inicializar_inodos, inicializar_filesystem}
use sistemas_operarivos_fiub.Fisopfs.Invariante.{EnUso, SuperbloqueOk}
use sistemas_operarivos_fiub.Fisopfs.Invariante.Regulares.{
  read-SuperbloqueOk, write-SuperbloqueOk, truncate-SuperbloqueOk, utimens-SuperbloqueOk,
}
use sistemas_operarivos_fiub.Fisopfs.Invariante.Creacion.{create-SuperbloqueOk}
use sistemas_operarivos_fiub.Fisopfs.Invariante.Carpetas.{mkdir-SuperbloqueOk}
use sistemas_operarivos_fiub.Fisopfs.Invariante.Bajas.{unlink-SuperbloqueOk, rmdir-SuperbloqueOk}
use sistemas_operarivos_fiub.Fisopfs.Llamadas.{
  Llamada, llama_read, llama_write, llama_create, llama_truncate, llama_unlink, llama_mkdir,
  llama_rmdir, llama_utimens, ejecutar, ejecutar_todas, Normal, TodasNormales,
}

inicializar_filesystem-SuperbloqueOk :
    (ctx : Contexto) (sb : Superbloque) → SuperbloqueOk (inicializar_filesystem ctx sb)
unfolding inicializar_filesystem inicializar_inodos update
inicializar_filesystem-SuperbloqueOk ctx sb = record {
  celdas = λ i l. elim (nat_eq_cases i 0) [
    | inl e ↦ rw e (inr (refl, root))
    | inr ne ↦ rw (==-ne i 0 ne) (rw (lt→ltb i max_inodes l) (inl (refl, refl)))
  ];
  raiz_ocupada = refl;
  raiz_dir = refl;
  raiz_path = refl;
}
  where
    root : EnUso 0 ((inicializar_filesystem ctx sb).inodos 0)
    root = record {
      numero = refl;
      nombres = record {
        path_cabe = omega arith;
        directory_cabe = omega arith;
        nombre_cabe = omega arith;
      };
      forma = inr (record {
        directorio = refl;
        usadas = 0;
        entran = omega arith;
        contiguas = record { llenas = λ i l. absurd (omega arith); vacias = λ i l. refl };
        contadas = inl refl;
        sin_bytes = λ k. refl;
      });
    }

-- Each callback keeps the invariant, whatever it returns.
pub ejecutar-SuperbloqueOk :
    (ctx : Contexto) (c : Llamada) (sb : Superbloque)
    → Normal c
    → SuperbloqueOk sb
    → SuperbloqueOk (ejecutar ctx c sb).1
unfolding ejecutar
ejecutar-SuperbloqueOk ctx (llama_read path size offset) sb n s =
    read-SuperbloqueOk ctx path size offset sb s
ejecutar-SuperbloqueOk ctx (llama_write path buffer offset) sb n s =
    write-SuperbloqueOk ctx path buffer offset sb n s
ejecutar-SuperbloqueOk ctx (llama_create path mode) sb n s = create-SuperbloqueOk ctx path mode sb s
ejecutar-SuperbloqueOk ctx (llama_truncate path size) sb n s =
    truncate-SuperbloqueOk ctx path size sb n s
ejecutar-SuperbloqueOk ctx (llama_unlink path) sb n s = unlink-SuperbloqueOk path sb s
ejecutar-SuperbloqueOk ctx (llama_mkdir path mode) sb n s = mkdir-SuperbloqueOk ctx path mode sb s
ejecutar-SuperbloqueOk ctx (llama_rmdir path) sb n s = rmdir-SuperbloqueOk path sb s
ejecutar-SuperbloqueOk ctx (llama_utimens path acceso modificacion) sb n s =
    utimens-SuperbloqueOk path acceso modificacion sb s

ejecutar_todas_keep :
    (cs : List (Contexto × Llamada)) (sb : Superbloque)
    → TodasNormales cs
    → SuperbloqueOk sb
    → SuperbloqueOk (ejecutar_todas cs sb)
unfolding ejecutar_todas
ejecutar_todas_keep [] sb n s = s
ejecutar_todas_keep ((ctx, c) ∷ r) sb n s =
    ejecutar_todas_keep r (ejecutar ctx c sb).1 n.1 (ejecutar-SuperbloqueOk ctx c sb n.0 s)

-- After a new file system is set up and any run of callbacks is made on it, with offsets and sizes
-- that are not negative and do not wrap, the superblock is sound: each inode is free and all zeros,
-- or a regular file of at most 4096 bytes with zeros past its end, or a directory with its entries
-- in the first cells and a size that counts them, or one more; names end inside their arrays; and
-- the root is in use.
pub ejecutar_todas-SuperbloqueOk :
    (ctx : Contexto) (sb : Superbloque) (cs : List (Contexto × Llamada))
    → TodasNormales cs
    → SuperbloqueOk (ejecutar_todas cs (inicializar_filesystem ctx sb))
ejecutar_todas-SuperbloqueOk ctx sb cs n =
    ejecutar_todas_keep cs (inicializar_filesystem ctx sb) n
      (inicializar_filesystem-SuperbloqueOk ctx sb)
